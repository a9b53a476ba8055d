-- ===== src/Template.antt =====
-- TemplateProcessor/TemplateSys.h and TemplateSys.cpp: the items of a syntax tree, which refer to each
-- other by index. No index is `none` here, and a number that no vector reaches in the code. An error
-- has a kind in place of its text.
pub mod Tokens
pub mod Parse
pub mod Links
pub mod Store
pub mod Render
pub mod InProgress
pub mod Lookups
pub mod Ends
pub mod Rendering
pub mod StoreFaults
pub mod Total
pub mod Matches
pub mod Parsing
pub mod EmptyToken
mod Tests
use lib_sloppy.Base.{ℕ, Bool, true, false, Option, none, some, Bytes, [], if◌then◌else◌}

pub data SyntaxTreeItemType : Type 0 where
  static variable for_loop condition include_cmd : SyntaxTreeItemType

pub data TokenType : Type 0 where
  variable start_if end_if start_for end_for include_cmd : TokenType

pub data SyntaxSectionType : Type 0 where
  root for_loop condition : SyntaxSectionType

pub record SyntaxTreeItem : Type 0 where
  pub t : SyntaxTreeItemType
  pub var_name : Bytes
  pub list_name : Bytes
  pub static_text : Bytes
  pub invert_condition : Bool
  pub idx_next_sibling : Option ℕ
  pub idx_first_child : Option ℕ
  pub idx_parent : Option ℕ
  pub idx_first_char : ℕ
  pub idx_last_char : ℕ

-- The messages: a malformed token of a type, an end that does not fit the section, and a section
-- without an end.
pub data ErrorKind : Type 0 where
  syntax_error : TokenType → ErrorKind
  unexpected_endif unexpected_endfor unmatched_for unmatched_if : ErrorKind

pub record SyntaxTreeError : Type 0 where
  pub kind : ErrorKind
  pub first_char : ℕ
  pub last_char : ℕ
