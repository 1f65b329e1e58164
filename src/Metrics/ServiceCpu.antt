-- ===== src/Metrics/ServiceCpu.antt =====
-- Class ServCpuCollector of services/cpu.cpp: the time that the processes of a service use, from
-- /proc/stat and from sched and stat of each process. A read out of bounds or an exception is `none`.
pub mod Growths
use watched_agent.Base.{
  ℕ, ◌+◌, ◌-◌, ◌*◌, ◌%◌, ◌^◌, Bool, true, false, ◌&&◌, not, List, [], ◌∷◌, Option, none, some,
  if◌then◌else◌, Str, str_eq, codes, length, take, ltb, ◌==◌, lookup, insert, ◌>>=◌,
}
use watched_agent.Json.{Json}
use watched_agent.Socket.{words, token, atoi_u32}
use watched_agent.Resource.{Counter, Resource, next_value}
use watched_agent.Metrics.Memory.{set_properties}

-- /proc/stat: the sum of the times of all processors on uint32_t, and their number.
unfoldable pub sum_tokens : List Str → ℕ → ℕ
sum_tokens [] sum = sum
sum_tokens (t ∷ ts) sum = sum_tokens ts ((sum + atoi_u32 t) % 2 ^ 32)

unfoldable pub read_stat : List Str → ℕ × ℕ → Option (ℕ × ℕ)
unfolding sum_tokens
read_stat [] s = some s
read_stat (line ∷ lines) (total, count) = elim (words line) [
  | [] ↦ none
  | name ∷ times ↦
      if str_eq name (codes "cpu")
      then read_stat lines (sum_tokens times total, count)
      else if str_eq (take 3 name) (codes "cpu")
      then read_stat lines (total, (count + 1) % 2 ^ 32)
      else read_stat lines (total, count)
]

-- One of the four counters: the last value of each process, and the growth of all on uint32_t.
pub record Growth : Type 0 where
  pub last : List (ℕ × ℕ)
  pub sum : ℕ

unfoldable pub add_growth : ℕ → ℕ → Growth → Growth
add_growth pid value g = record {
  last = insert ◌==◌ pid value g.last;
  sum = elim (lookup ◌==◌ pid g.last) [
    | none ↦ g.sum
    | some old ↦ if ltb old value then (g.sum + (value - old)) % 2 ^ 32 else g.sum
  ];
}

pub record Times : Type 0 where
  pub users : Growth
  pub sys : Growth
  pub cusers : Growth
  pub csys : Growth

-- The words 13 to 16 of the line of a process.
unfoldable pub add_times : ℕ → List Str → Times → Option Times
add_times pid ws t = do
  u ← token ws 13
  s ← token ws 14
  cu ← token ws 15
  cs ← token ws 16
  some (record {
    users = add_growth pid (atoi_u32 u) t.users;
    sys = add_growth pid (atoi_u32 s) t.sys;
    cusers = add_growth pid (atoi_u32 cu) t.cusers;
    csys = add_growth pid (atoi_u32 cs) t.csys;
  })

-- total_time-prev_total_time, a uint32_t and a uint64_t.
unfoldable pub elapsed : ℕ → ℕ → ℕ
elapsed total prev = (total + 2 ^ 64 - prev) % 2 ^ 64

-- stod, which may throw, and the difference of doubles.
pub record Floats (json : Json) : Type 0 where
  pub stod : Str → Option json.Double
  pub minus : json.Double → json.Double → json.Double

-- The files of a process that can be opened, as their lines.
pub record ProcFiles : Type 0 where
  pub sched : ℕ → Option (List Str)
  pub stat : ℕ → Option (List Str)

module _ (json : Json) (floats : Floats json) where
  open json use {Value, Double, of_ℕ, of_double, double_of, add, mul, div, at_least}
  open floats use {stod, minus}

  -- The run times of the scheduler, with their sum, and the number of threads.
  pub record Scheduler : Type 0 where
    pub values : List (ℕ × Double)
    pub sum : Double
    pub thread : ℕ

  unfoldable pub add_runtime : ℕ → Double → Scheduler → Scheduler
  add_runtime pid v s = record s {
    values = insert ◌==◌ pid v s.values;
    sum = elim (lookup ◌==◌ pid s.values) [
      | none ↦ s.sum
      | some old ↦ if at_least old v then s.sum else add s.sum (minus v old)
    ];
  }

  -- One line of sched.
  unfoldable pub sched_line : ℕ → List Str → Scheduler → Option Scheduler
  unfolding add_runtime
  sched_line pid ws s = do
    name ← token ws 0
    (if str_eq name (codes "se.sum_exec_runtime")
        then (token ws 2 >>= λ text. stod text >>= λ v. some (add_runtime pid v s))
        else elim (token ws 2) [
          | none ↦ some s
          | some label ↦
              if str_eq label (codes "#threads:")
              then (token ws 3 >>= λ n.
                  some
                    (record s { thread = (s.thread + atoi_u32 (take (length n - 1) n)) % 2 ^ 32 }))
              else some s
        ])

  unfoldable pub sched_lines : ℕ → List Str → Scheduler → Option Scheduler
  unfolding sched_line
  sched_lines pid [] s = some s
  sched_lines pid (line ∷ lines) s = sched_line pid (words line) s >>= sched_lines pid lines

  -- What the loop over the processes adds up.
  pub record Usage : Type 0 where
    pub scheduler : Scheduler
    pub times : Times
    pub process : ℕ

  -- The first line of stat: with fewer than 17 words the process is not counted.
  unfoldable pub stat_lines : ℕ → List Str → Usage → Option Usage
  unfolding add_times
  stat_lines pid [] u = some (record u { process = (u.process + 1) % 2 ^ 32 })
  stat_lines pid (line ∷ lines) u =
      if ltb (length (words line)) 17
      then some u
      else (add_times pid (words line) u.times >>= λ t.
          some (record u { times = t; process = (u.process + 1) % 2 ^ 32 }))

  unfoldable pub use_process : ProcFiles → ℕ → Usage → Option Usage
  unfolding sched_lines stat_lines
  use_process files pid u = elim (files.sched pid) [
    | none ↦ some u
    | some lines ↦ sched_lines pid lines u.scheduler >>= λ s.
        let v = record u { scheduler = s } in
        elim (files.stat pid) [ none ↦ some v | some texts ↦ stat_lines pid texts v ]
  ]

  unfoldable pub use_processes : ProcFiles → List ℕ → Usage → Option Usage
  unfolding use_process
  use_processes files [] u = some u
  use_processes files (pid ∷ pids) u = use_process files pid u >>= use_processes files pids

  -- The members of the collector, with its two resources.
  pub record ServCpu : Type 0 where
    pub values : List (ℕ × Double)
    pub users : List (ℕ × ℕ)
    pub sys : List (ℕ × ℕ)
    pub cusers : List (ℕ × ℕ)
    pub csys : List (ℕ × ℕ)
    pub prev_total_time : ℕ
    pub shed : Resource json
    pub stat : Resource json
    pub counter : Counter

  abbrev pub no_growth : List (ℕ × ℕ) → Growth
  no_growth last = record { last = last; sum = 0 }

  unfoldable pub begin_usage : ServCpu → Usage
  begin_usage c = record {
    scheduler = record { values = c.values; sum = double_of 0; thread = 0 };
    times = record {
      users = no_growth c.users;
      sys = no_growth c.sys;
      cusers = no_growth c.cusers;
      csys = no_growth c.csys;
    };
    process = 0;
  }

  -- The two points that are set, when there was a call before.
  unfoldable pub publish : Value → ℕ → ℕ → Usage → ServCpu → Option ServCpu
  unfolding elapsed
  publish now total count u c = do
    let (shed, k) = next_value json now c.shed c.counter
    shed' ←
        set_properties json
          ((codes "exec_runtime", of_double u.scheduler.sum)
            ∷ (codes "process", of_ℕ u.process)
            ∷ (codes "thread", of_ℕ u.scheduler.thread)
            ∷ [])
          shed
    let p = div (double_of (100 * count % 2 ^ 32)) (double_of (elapsed total c.prev_total_time))
    let share : ℕ → Value = λ n. of_double (mul (double_of n) p)
    let (stat, k') = next_value json now c.stat k
    stat' ←
        set_properties json
          ((codes "user", share u.times.users.sum)
            ∷ (codes "system", share u.times.sys.sum)
            ∷ (codes "pct", share ((u.times.sys.sum + u.times.users.sum) % 2 ^ 32))
            ∷ (codes "cuser", share u.times.cusers.sum)
            ∷ (codes "csystem", share u.times.csys.sum)
            ∷ [])
          stat
    some (record c { shed = shed'; stat = stat'; counter = k' })

  -- ServCpuCollector::collect, on the lines of /proc/stat and the result of getPIDs.
  unfoldable pub collect_service_cpu :
      Value → List Str → ProcFiles → List ℕ → ServCpu → Option ServCpu
  unfolding read_stat use_processes begin_usage publish
  collect_service_cpu now lines files pids c = do
    (total, count) ← read_stat lines (0, 0)
    u ← use_processes files pids (begin_usage c)
    let n = if count == 0 then 1 else count
    c' ← (if c.prev_total_time == 0 then some c else publish now total n u c)
    some (record c' {
      values = u.scheduler.values;
      users = u.times.users.last;
      sys = u.times.sys.last;
      cusers = u.times.cusers.last;
      csys = u.times.csys.last;
      prev_total_time = total;
    })
