-- ===== src/Tasks.antt =====
-- eyeflow-server/src/tasks: the services around projects.
pub mod Versions
