-- ===== src/Lib.antt =====
-- watched.agent: an agent that finds the services of a host by their listening sockets, follows
-- their processes, metrics and logs, and shows them over HTTP.
--
-- The program and the files that model it (paths from the root of the repository):
--   * Base: names, tests, lists and maps that all modules share.
--   * Text: the operations of std::string, strtoul, atoi and the streams that the parsers use; size_t
--     arithmetic wraps at 2 ^ 64, and an exception or a read out of bounds is `none`.
--   * Json: the interface of jsoncpp, whose code is not in this repository; Tests/Document has an
--     instance, which shows that its laws can hold. Json/Paths has the elements of arrays and runs of
--     assignments such as v["a"]["b"][0] = x; Tests/Routes has an instance of it.
--   * Socket: class socket of src/services.cpp. Socket/Proc is about setSockFrom and setSockFrom6 on
--     what the kernel writes in /proc/net, Socket/Url about getSource and the constructor that reads it.
--   * Process: class process of src/services.cpp over a record `Os` of what /proc shows at one moment.
--   * Service: class service of src/services.cpp: setSocket, addMainProcess, addSubProcess, updateFrom,
--     needSocketFrom. Service/Views is about the JSON status and the counts of the index page, over
--     what isBlackout of a handler does, which may throw or change its service;
--     Service/Template about the constructor from a file and setDefaultConfig, Service/Plugged about
--     addCollector, setHandler and addLogMonitor.
--   * Manager: class servicesManager of src/servicesManager.cpp: addService, handleSubProcess,
--     doGetServiceStatus, in Manager/Logs doGetServiceLog, and in Manager/Collected doGetAllJson,
--     doGetCollectorHistory and doGetCollectorGraph. Manager/Detector is class socketDetector of the
--     same file, Manager/Settings its configuration; Manager/Searching is the thread that calls find
--     beside the destructor, a step relation.
--   * Plugins: how servicesManager::init and the constructor of CollectorsManager read the directories
--     of plugins, and what the plugins leave in the factories.
--   * Systemd: the plugin services/sdbus/systemdbus.cpp: its readers of properties, its handler and its
--     enhancer, over an interface to the library sd-bus, which is not in this repository;
--     Systemd/Units is its detector, Systemd/Replies is about doGetAllJson with its handlers. Searches
--     joins the detector with socketDetector in servicesManager::find, Searches/Shipped with the
--     detectors in Lua too. The enhancers are a parameter there.
--   * Swagger: the document of the routes: Ressource::getDefinition, Collector::getDefinitions and
--     getPaths and service::getJson; Swagger/Document is servicesManager::doGetJson.
--   * Lua: the plugins in Lua, src/luacollectors.cpp: the classes around the interpreter, where a
--     function of a plugin is the sequence of the methods that it calls. Lua/Metrics is class
--     LuaCollector, Lua/Tables is about LuaSorter and the table of PIDs.
--   * Server: the handler of static files of src/server.cpp and the sending of a file in chunks;
--     Server/Routes is about the constructor of HttpServer, setRegex and setDefault.
--   * Resource: class Ressource of src/collectors.cpp and include/collectors.h, with tickRessource and
--     pidRessource in Resource/Values and the texts of that file in Resource/Texts.
--   * Collector: class Collector of src/collectors.cpp: its resources and the histories it sends;
--     Collector/Thread is its thread and its destructor, a step relation; Collector/Own is class
--     SelfCollector.
--   * LogParser: class logParser of src/services.cpp. Its two virtual methods are parameters.
--   * Config: src/config.cpp, Log: src/log.cpp.
--   * Metrics: the collect functions of the plugins under collectors/ and services/.
--
-- How they interact: the detector reads the listening sockets and visits the directories of /proc; a
-- process with a listening socket becomes a service, which the plugins may enhance and addService
-- joins with the services that are known. The plugins' collectors fill histories, each from its own
-- thread, and the routes of the server read the services and the histories.
--
-- State is passed explicitly. A shared pointer to a service, a process or a socket is a value, since
-- the agent keeps each in one place. A loop over a container or over the lines of a file is recursion
-- on the list; the printing of a number recurs on the number plus one, which its digits never exceed, and
-- the sending of a file on its length plus one, since each chunk but the last one has a byte or more.
-- LuaSorter::isType recurs on fuel, of which one more than the listed types is enough, and the emptying
-- of a Lua table on its length.
-- The numbers are natural and the wrap-around of uint32_t, uint16_t and size_t is written out. A
-- double stays an abstract value of Json.
--
-- Not modelled: the HTML pages, the Lua interpreter and the plugins' own code, dlopen, the connection
-- to the system bus, files that are written, and the vendored libraries sws and include/selene. An
-- exception of jsoncpp, when a member of a value that is no object is set, is left out of the document
-- of the routes, whose values are null or of the type that the code made them.
mod Base
pub mod Text
pub mod Json
pub mod Socket
pub mod Process
pub mod Service
pub mod Resource
pub mod Manager
pub mod Log
pub mod LogParser
pub mod Config
pub mod Collector
pub mod Metrics
pub mod Server
pub mod Plugins
pub mod Systemd
pub mod Searches
pub mod Swagger
pub mod Lua
mod Tests
