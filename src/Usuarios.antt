-- ===== src/Usuarios.antt =====
-- src/lib/usuarios: the internal users.
pub mod PasswordReset
pub mod InitialPassword
pub mod UserValidation
