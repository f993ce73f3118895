-- ===== src/Detection.antt =====
-- The Detection context (app/models.py, sentinel_detection): its tables, and its calls of Core.
pub mod Tables
pub mod Client
