-- ===== src/LogParser/Thread.antt =====
-- The thread of class logParser and its destructor, in src/services.cpp: the test of the loop, the
-- lock, the second test, parseLog, wait_for; and the lock, the assignment, kill and join. They are the
-- steps of the thread of a collector, with parseLog for collect.
use watched_agent.Collector.Thread.{State, Step}

-- logParser::startThread
abbrev ParserStep : State → State → Type 0
ParserStep = Step
