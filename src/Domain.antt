-- ===== src/Domain.antt =====
-- internal/acl/domain: Odoo domain strings, from bytes to tokens to a tree.
pub mod Token
pub mod Ast
pub mod Lexer
pub mod Tree
pub mod Parser
