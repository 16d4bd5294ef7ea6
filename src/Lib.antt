-- ===== src/Lib.antt =====
-- The NexusFlow backend: its notification system, its flow builder, the access of clients to its
-- MQTT broker, its hand-off of sign-ins and its one-time codes.
--
-- The backend (NestJS, MongoDB through Mongoose) runs flows of sensors and actuators. A flow is a
-- graph of nodes that the flow builder checks and compiles to the setup of a device, the logic it
-- runs and the items of its interface. Devices and users sign in at an MQTT broker, where each may
-- use the topics of its own devices. Devices send readings over MQTT; the notifications service
-- holds the alert rules of a flow against them, opens and closes incidents, stores notifications
-- and pushes them to the phones of the flow's owner through Firebase. This library models that
-- service, src/notifications/notifications.service.ts, with the schemas of
-- src/notifications/schemas, the builder src/flows/flow-builder.service.ts with
-- src/flows/module-registry.ts, the sign-in and the topics of src/mqtt/mqtt.handlers.ts, the
-- hand-off of Google sign-ins in src/auth and the one-time codes of src/verification. The other
-- parts of the backend are not modelled.
--
-- The parts, and the code that each is about:
--   Prelude             JavaScript's numbers, texts and arrays as far as the service uses them. A
--                       finite double is a whole multiple of 2^-1074, so `finite z` stands for
--                       z * 2^-1074 and comparisons are those of integers.
--   Value               values of type `unknown`: fields of stored policies, payloads.
--   Action              an operation as a function of the state that answers or throws an
--                       exception of NestJS, and leaves behind what it wrote before the throw.
--   Platform            what the service is given: collections of documents with fresh ids, a cache
--                       with a time to live, and conversions to text. Each has the laws that the
--                       code relies on. Platform.Query has the queries, Platform.Memory an
--                       implementation with the laws proved, at which the theorems are tried.
--   Notifications.Schemas    the documents, and the collections and the cache of the service.
--   Notifications.Condition  validateRuleCondition, matchesOperator, normalizeConditionByOperator.
--   Notifications.Cooldown   shouldTriggerRule, shouldTriggerGasRule, resetRuleTriggerState.
--   Notifications.Policy     the alert policies: defaults of a rule, the table of policies, listing,
--                       upserting, deleting, and the start of the service (ensureBaselinePolicies).
--   Notifications.Payload    texts and data of notifications.
--   Notifications.Tokens     registerDeviceToken, unregisterDeviceToken.
--   Notifications.Sending    sendAlertToFlowOwner, createTokenBatches, collectDeadTokens; Batches and
--                       Reports have lemmas on the batches and on what is reported dead.
--   Notifications.Incidents  incidents, what is written to them, and the wait between notifications.
--   Notifications.Alerts     fireAlertFromRule, resolveIncidentFromRule, findOpenIncident.
--   Notifications.Readings   processSensorReading; Tally has its counts.
--   Notifications.Requests   triggerAlertFromInternal.
--   Notifications.Rules      createAlertRule, updateAlertRule, deleteAlertRule, getAlertRule.
--   Notifications.Sync       syncRulesForFlowNodes, cleanupFlowNotificationData.
--   Notifications.Receipts   recordNotificationReceipts, markNotificationHandled.
--   Notifications.Preferences  updateNotificationPreferences and its relatives.
--   Flows.Schemas       nodes, edges and diagnostics of src/flows, and the topics of a node.
--   Flows.Registry      the table of modules (module-registry.ts), and the pins and commands.
--   Flows.Values        toOptionalNumber, resolveInterval, readConfigNumber, toBoolean.
--   Flows.Structure     validateFlowStructure; Counts has lemmas on the connections of nodes.
--   Flows.Setup         buildSetupFromNodes: State has its variables and the checks of pins, Gpio and
--                       Sensors the kinds of node, Build the loop; the others its theorems.
--   Flows.Logic         buildLogicCommandsFromGraph: Channels has the channels of bridges,
--                       Steps the steps of nodes, Paths the search for paths, Build the whole; the
--                       others its theorems.
--   Flows.Ui            buildUiFromNodes.
--   Mqtt.Topics         the topics of src/mqtt/mqtt.handlers.ts, and what they name.
--   Mqtt.Access         onAuthorizePublish, onAuthorizeSubscribe, onAuthorizeForward; its
--                       theorems in Laws and Reach.
--   Mqtt.Broker         the clients that the broker holds (src/mqtt/mqtt.service.ts) and the sessions of
--                       devices; Memory has a cache of sessions with the laws.
--   Mqtt.Accounts       authenticateByMacAndPassword and findAllByUserIdRaw of
--                       src/devices/devices.service.ts, authenticateMqttUser of
--                       src/users/users.service.ts.
--   Mqtt.Sessions       onAuthenticate, and its theorems in Owners and Exclusive.
--   Auth.Handoff             src/auth/services/google-auth-handoff.service.ts.
--   Verification.Otp         issueOtp and consumeOtp of src/verification/verification.service.ts.
--   Tests               the theorems at concrete inputs.
--
-- How the parts interact: Readings asks Condition whether a rule matches and Cooldown whether
-- it is due, then lets Alerts fire it; Alerts stores an incident and a notification, whose
-- data come from Payload, and sends it through Sending, which invalidates the tokens that
-- Firebase reports dead, or throws where Firebase rejects a batch. The clients that
-- Mqtt.Sessions lets in carry the addresses that Mqtt.Access compares with those that
-- Mqtt.Topics finds. Entries of the cache without a limit in time are the parameter
-- `SessionCache`, the comparison with a hash by bcrypt is `compares`, the clients that the
-- broker holds are a list. The builder checks a flow with Structure, whose nodes then go to
-- Setup, Logic and Ui.
--
-- Time is milliseconds since the epoch. Operations take the time of the reading and, where the code
-- calls `new Date()` or the cache reads its clock, the time of day (`wall`, `now`). Loops are
-- recursion on lists. Cutting tokens into batches has the count of tokens as its fuel; every batch
-- takes at least one token, so the fuel suffices, as the result on batches shows. The search for
-- paths, which the code bounds by the nodes that it visited, has one more than the count of nodes
-- as its fuel, and the result on the logic of a flow shows that it never runs out. The names of
-- tasks draw random numbers: `random n` is the n-th of them, and states count them. The check of
-- the code of function nodes (function-node-security.util.ts, which walks the syntax tree that the
-- library acorn makes) is the argument `validate_function_code`.
--
-- Not modelled: operations are not interleaved, a request runs to its end on one state; the
-- counts that MongoDB reports for a bulk write; the dates createdAt and updatedAt that
-- Mongoose writes, except where a document of the model has such a date as a field; the
-- validation of documents by Mongoose, except that a notification needs a title and a body;
-- logging; casts of ids that Mongoose makes in filters, except where an id that is no
-- ObjectId makes a query throw; module ids that name a member of Object.prototype, which are
-- found in tables that are plain objects (ids of nodes with such names are modelled where the
-- connections of a node are counted); nodes whose ids are numerals, as far as the order of
-- the entries of an object decides which of several nodes an error names; the sign of zero;
-- what the MQTT handlers do with messages, and the records of the performance service; upper
-- case outside of ASCII; the histories of alerts and notifications.
pub mod Action
pub mod Auth
pub mod Flows
pub mod Mqtt
pub mod Notifications
pub mod Platform
pub mod Prelude
pub mod Tests
pub mod Value
pub mod Verification
