-- ===== src/TokenKind.antt =====
-- src/graphql/language/token_kind.py
use graphql_core.Prelude.{Bool, true, false}

pub data TokenKind : Type 0 where
  sof eof bang dollar amp paren_l paren_r dot spread colon equals at : TokenKind
  bracket_l bracket_r brace_l pipe brace_r : TokenKind
  name int float string block_string comment : TokenKind

unfoldable pub TokenKind-discrete : Discrete TokenKind
TokenKind-discrete = hlevel

-- `kind in _punctuator_token_kinds`
unfoldable pub is_punctuator_token_kind : TokenKind → Bool
is_punctuator_token_kind sof = false
is_punctuator_token_kind eof = false
is_punctuator_token_kind name = false
is_punctuator_token_kind int = false
is_punctuator_token_kind float = false
is_punctuator_token_kind string = false
is_punctuator_token_kind block_string = false
is_punctuator_token_kind comment = false
is_punctuator_token_kind _ = true

abbrev pub is_comment : TokenKind → Bool
is_comment comment = true
is_comment _ = false

abbrev pub is_eof : TokenKind → Bool
is_eof eof = true
is_eof _ = false
