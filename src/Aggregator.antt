-- ===== src/Aggregator.antt =====
-- p_aggregator.go and p_mqtt.go: a client that is told over MQTT how to run.
pub mod State
pub mod Mqtt
pub mod Handlers
pub mod Loop
pub mod Quiet
pub mod Faithful
pub mod Runs
pub mod Conversation
pub mod Told
mod Examples
