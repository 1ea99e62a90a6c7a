-- ===== src/Lib.antt =====
-- A model of the Azure device agent: the service that a Windows IoT device runs to be managed from the
-- cloud. The hub sends the device its desired properties; the agent hands each section of them to the
-- plug-in handler of that name, in an order in which every handler follows those that it depends on,
-- and reports to the hub what became of them.
--
-- The files and the code they are about:
--   * Base: texts, maps (std::map as an association list sorted by key), numbers and results.
--   * Utilities/DependencySort: DependencySort in code/Utilities. SetDependenciesMap is
--     set_dependencies_map, SortDependency is sort_dependency.
--   * Host: AzureRawHost in code/device-agent/agent/Raw. Host has its state; Host/Registry the
--     registration and HandlerInvokeSequence; Host/Messages Report, ReportAll and MarkStatus;
--     Host/Calls InvokeHandler, OnDeviceTwinReceived and OnDirectMethodInvoked; Host/Lifecycle the
--     signals. The handlers (IRawHandler) are plug-ins and a parameter, Handlers.
--   * Client: AzureDMClient in code/device-agent/agent: GetConnectionString, and the loop of Run that
--     connects to the hub, renews the connection and ends it.
--   * Settings: ServiceParameters in code/device-agent/agent, the settings of the service and their file.
--   * Plugins: OutOfProcPluginBinaryProxy in code/device-agent/agent/Plugins, which remembers what a
--     plug-in host was told and tells it again to a new one; Remote/Restored has what the stub in the
--     new process makes of it.
--   * Remote: how the agent calls the handlers of a plug-in, and a plug-in its host. Remote/Requests and
--     Remote/Responses have CrossBinaryRequest and CrossBinaryResponse of
--     code/device-agent/common/Plugins; Remote/Stub and Remote/Plugin RawHandlerStub, PluginStub and
--     PluginInvoke of code/device-agent/plugin-common, and PluginBinaryProxy of
--     code/device-agent/agent/Plugins; Remote/Proxy RawHandlerProxy and PluginProxy of the agent;
--     Remote/Reverse the calls in the other direction, AgentStub and its proxies. A call is a function
--     from the state of what is called to its new state and what it returns or throws (Call).
--   * Transport: code/device-agent/common/Plugins, by which agent and plug-in hosts exchange messages.
--     Transport/Packets has MessageToPackets and PacketsToMessage, Transport/Pipe WriteMessage and
--     ReadMessage of PluginNamedPipeBaseTransport, Transport/Queue MessageQueue, and Transport/Monitor
--     RunMessageMonitor, RunRequestMonitor and SendAndGetResponse as steps that interleave.
--   * Utilities/DateTime, Utilities/Version and Utilities/Strings: DateTime, Version and parts of DMString
--     in code/Utilities.
--   * Reporting: HandlerBase, MetaData, Operation, JsonHelpers, ReportedError, ReportedErrorList, ReportedSummary and
--     ReportedSchema in code/device-agent/common, which the handlers and the host report with.
--   * Service: ServiceManager in code/device-agent/agent.
--   * Json: what the models use of the JSON library, which is a third party's. Samples: a small such
--     library, to run the models on.
--
-- Bounds. The sort runs on fuel, as many rounds as there are handlers; each handler is queued once at
-- most. ReadMessage runs on fuel, one unit for a packet; the wait for a service, one unit for a poll;
-- GetConnectionString, one unit for an attempt. The loop of Run is given by its rounds so far. Unsigned
-- numbers wrap around where the code lets them. A number is written in at most ten digits, which a
-- number of 32 bits has. A text is a list of character codes.
--
-- Not modelled: logging, locks, the calls of Windows and of the IoT Hub SDK (their answers are
-- arguments), the plug-ins, the TPM tools and the user interfaces, and exceptions
-- that derive from neither DMException nor std::exception. The handlers run on threads of
-- their own in places; a report of theirs is then a further call of `report`.
pub mod Base
pub mod Utilities
pub mod Transport
pub mod Service
pub mod Json
pub mod Reporting
pub mod Plugins
pub mod Host
pub mod Remote
pub mod Client
pub mod Settings
pub mod Samples
