-- ===== src/BusIntegration.antt =====
-- bus_integration/models: records that are synchronised between databases by messages.
--
-- `Messages` has the table of messages with the identifiers by which a response finds its request.
-- Models, databases and users are numbers, and the text of a message is the data that the code reads
-- of it. `Binding` has the local records that messages bind.
pub mod Messages
pub mod Binding
