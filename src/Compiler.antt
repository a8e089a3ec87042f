-- ===== src/Compiler.antt =====
-- eyeflow-server/src/compiler: the intermediate representation and the stages that build and check
-- it.
pub mod Ir
pub mod Verifier
pub mod IrGenerator
