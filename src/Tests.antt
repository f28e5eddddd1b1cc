-- ===== src/Tests.antt =====
-- The theorems at concrete inputs.
mod Plain
mod RedisExamples
mod PostgresExamples
mod ProxyExamples
mod MongoExamples
mod SessionExamples
mod DivergenceExamples
