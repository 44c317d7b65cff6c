-- ===== src/Lib.antt =====
-- The verification library of the ESP32 Zigbee bridge, a small event-driven system in C: the C
-- code as definitions, and theorems about them.
--
-- The program. os/ is the operating-system layer: an event bus (os/src/os_event.c) that every
-- other part publishes to and subscribes at, a store of keys and values with a buffer of writes
-- (os/src/os_persist.c), a cooperative scheduler (os/src/os_fibre.c), a log (os/src/os_log.c),
-- and a console with a shell (os/src/os_console.c, os/src/os_shell.c). services/ holds the
-- device registry (services/src/registry.c), which publishes what joins and leaves; the
-- interviews of new devices (services/src/interview.c), which read and write the registry and
-- publish on the bus; the capabilities (services/src/capability.c) that follow from the clusters
-- of a node, with their values, which the reports of attributes change, through the quirks of
-- known devices (services/src/quirks.c), and which are published on the bus; and the
-- announcements of a node to Home Assistant (services/ha_disc/ha_disc.c). adapters/mqtt_adapter/
-- turns the changes of capabilities on the bus to messages of MQTT, and ha_disc.c publishes
-- through it. drivers/zigbee/ is the adapter to the ESP Zigbee stack (zb_real.c, zb_cmd.c),
-- which turns commands to requests and what the stack reports to events.
--
-- Where each part is.
--   Base                 shared names: Boolean tests, C arrays as lists, the search of a slot in a
--                        table (Base/Slots), tables with a key in each taken slot (Base/Tables),
--                        machine words and bytes (Base/Words), parts of arrays (Base/Windows),
--                        strings and the formats of printf (Base/Text)
--   Os/Types             os/include/os_types.h, os_config.h: `os_err_t` is Err
--   Os/Event             os/src/os_event.c. State: the static `bus` as the record Bus. Publish,
--                        Subscribe and Dispatch have a function for each C function; Valid, Fifo,
--                        Handlers, Delivery, Subscribers and Reach prove
--   Os/Persist           os/src/os_persist.c, the host's half. Types: the static `persist`, and the
--                        files as the parameter Disk. Flush, Ops, Admin: the functions. Lookup,
--                        FlushView, View, PutSlot, PutView, GetView, DelView, Loss prove; Memory has
--                        files for concrete input
--   Services/Registry    services/src/registry.c and services/include/reg_types.h. Types: the
--                        structs. Nodes: the functions on nodes. Parts: those on endpoints,
--                        clusters and attributes. Storage: `reg_persist`, `reg_restore`. Valid, Keep,
--                        KeepParts, KeepPointers, Directory, Outcome, Run, Unsaved prove
--   Services/Interview   services/src/interview.c. State; Advance: `advance_interview`; Ops: the
--                        functions of the service. Steps, Timeouts, Process, Keep, Run,
--                        Expired prove
--   Services/Capability  services/src/capability.c. Types, Info (names and units); Compute:
--                        `cap_compute_for_node`; Report: `cap_get_state`,
--                        `cap_handle_attribute_report`, `cap_execute_command`. Given, Computed,
--                        Outcome, State, Expected, Reported, Command prove
--   Services/Quirks      services/src/quirks.c. Table: the entries and `quirks_find`; Apply:
--                        `quirks_apply_value`, `quirks_apply_command`. Match and Effects prove
--   Services/HaDisc      services/ha_disc/ha_disc.c. State: the waiting nodes; Escape:
--                        `json_escape_string`; Messages: topics and payloads; Ops, Config: the
--                        functions. Round, Lost, Leftover prove
--   Adapters/Mqtt        adapters/mqtt_adapter/mqtt_adapter.c, the host's half. State: the static
--                        `adapter`, with the messages published; Ops: the functions. Counted and
--                        Decoded prove
--   Os/Fibre             os/src/os_fibre.c, the host's half. State: the chain of the fibres and the
--                        scheduler; Ops: the functions. Rotation, Choice, Chosen, Valid, Reach,
--                        Fair, Wake prove
--   Os/Shell             Console: os/src/os_console.c; Commands: os/src/os_shell.c. Registered,
--                        Splitting, Editing, Typing prove
--   Os/Log               os/src/os_log.c. Ops: the functions; Ring and Queue prove
--   Drivers/Zigbee       drivers/zigbee/zb_real.c and zb_cmd.c. State, Cache, Pending, Signals,
--                        Commands: the functions. CacheView, Leak and Level prove
-- Each part has its runs on concrete input in a module Tests.
--
-- How C is written here. A static struct is a record, a function that changes it returns it anew
-- beside its result, an out parameter is a component of the result. A pointer into a table is
-- the index of the slot, NULL is `none`. A uint32_t or uint8_t is a number with its wrap-around
-- written out (add32, sub32, add8, sub8). Strings and values are the lists of their bytes. A
-- loop over an array is a search (find_index) or a recursion over the list. Arrays of which the
-- size depends on the platform take it from Limits: the host's and the ESP32's are host_limits
-- and esp_limits. A call reads the clock once: `now` of Env, whose `padding` gives the bytes
-- that C leaves open in a struct. Log messages are left out of all parts but the log itself
-- (Os/Log), nothing reads them back. What is published is the bytes that os_event_emit is given.
--
-- What is not under the repository is a parameter: the handlers of a dispatch are a function
-- `call` of the handler's number, the event and its context; where a theorem needs to know what
-- a handler may do, it takes a tree of bus calls (Os/Event/Handlers), without os_event_dispatch,
-- as the handlers of the program are. The files of the store are a Disk: that they keep what is
-- written (IsFaithful), take every write (Accepts) or none (Refuses), and can be taken away
-- (Unlinks), are named hypotheses. What the Zigbee stack answers is an argument of the step. The
-- handlers of the shell are a function `call` of the handler's number and the arguments. What
-- the compiler's library does on numbers of type float, and printf's "%.2f" of one, is a record
-- Floats; a float is its 32 bits, and the theorems hold for all Floats. Whether malloc finds
-- room is a Boolean argument. The bytes of a node in memory, which the compiler lays out, are a
-- function `image`; HoldsValues says that they hold the values of the node's attributes.
--
-- Loops: the rounds of os_event_dispatch are a recursion on the number of the events to
-- dispatch, which the code computes before its loop. The search of find_next_ready goes around
-- the chain on as many rounds as there are fibres, `none` if these do not end it; where the
-- current fibre is in the chain they always do. parse_args is a recursion on the number of
-- arguments that there is still room for, and os_log_flush one on the messages that wait. Every
-- other loop runs over a fixed array. The endless loops of the tasks and of os_fibre_start are
-- runs of any length.
--
-- The scheduler: setjmp and longjmp pass control between the scheduler and a fibre, so each
-- function is what happens up to that point, and the steps of Os/Fibre/Valid are these pieces in
-- any order that the code allows. Stacks and saved contexts are left out.
--
-- Not modelled: the halves of os_fibre.c and os_persist.c for the ESP32, which pass the work on
-- to FreeRTOS and to NVS, and those of mqtt_adapter.c, which are empty as yet; the printing handlers of the
-- shells (os_shell.c, services/src/reg_shell.c, drivers/zigbee/zb_shell.c), which are output;
-- the modes of the terminal; the callbacks of drivers/zigbee/zb_callback.c and the fake adapter
-- zb_fake.c; the local node (services/local_node/local_node.c) with its drivers of GPIO and I2C;
-- main/ and apps/, which call the parts in order.
mod Base
pub mod Os
pub mod Services
pub mod Drivers
pub mod Adapters
