-- ===== src/Requests.antt =====
-- app/src/c/request_layer.c and request_layer.h: the slots of requests in flight, their timeouts and
-- retries, and the delivery of answers. The state and each function stand in Requests/Layer.
pub mod Layer
pub mod Calls
pub mod Sequence
