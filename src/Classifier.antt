-- ===== src/Classifier.antt =====
-- intent_classifier_service/app: the service that the gateway asks for the intent of a prompt.
pub mod Outside
pub mod Lru
pub mod Cache
pub mod Llm
pub mod Handler
