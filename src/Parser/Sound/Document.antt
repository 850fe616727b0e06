-- ===== src/Parser/Sound/Document.antt =====
-- src/graphql/language/parser.py: the dispatch of parse_definition against the grammar.
use graphql_core.Prelude.{ℕ, ◌<◌, ◌≢◌, refl, Bool, true, false, ◌&&◌, ◌||◌, if◌then◌else◌}
use graphql_core.Errors.{
  Text, Error, err, syntax_error, description_not_supported, index_error, out_of_fuel, Ensures,
  returns, raises, raises_index, Ensures-bind, Ensures-if,
}
use graphql_core.TokenKind.{name, brace_l, string, block_string}
use graphql_core.Ast.{Definition, operation_definition, fragment_definition}
use graphql_core.Lexer.Next.{Stream, last, fault, token}
use graphql_core.Grammar.TypeSystem.{definition_lexemes}
use graphql_core.Parser.State.{
  Options, ParserState, Parser, ◌>>>◌, pure, kind_of, start_of, text_of, same, peek,
}
use graphql_core.Parser.Executable.{parse_operation_definition, parse_fragment_definition}
use graphql_core.Parser.Document.{
  unexpected_at, lookahead, extension_by_keyword, parse_type_system_extension,
  definition_by_keyword, definition_at, parse_definition,
}
use graphql_core.Parser.Reads.{IsClean, size}
use graphql_core.Parser.Sound.Operations.{
  parse_operation_definition-Read, parse_fragment_definition-Read,
}
use graphql_core.Parser.Sound.Definitions.{
  DefinitionRead, SoundDefinition, parse_schema_definition-Sound,
  parse_scalar_type_definition-Sound, parse_object_type_definition-Sound,
  parse_interface_type_definition-Sound, parse_union_type_definition-Sound,
  parse_enum_type_definition-Sound, parse_input_object_type_definition-Sound,
  parse_directive_definition-Sound,
}
use graphql_core.Parser.Sound.Extensions.{
  parse_schema_extension-Sound, parse_scalar_type_extension-Sound,
  parse_object_type_extension-Sound, parse_interface_type_extension-Sound,
  parse_union_type_extension-Sound, parse_enum_type_extension-Sound,
  parse_input_object_type_extension-Sound, parse_directive_definition_extension-Sound,
}

raised : {A : Type 0} {P : A → Type 0} (e : Error) → e ≢ out_of_fuel → Ensures P (err e)
raised (syntax_error p m) h = raises
raised index_error h = raises_index
raised out_of_fuel h = absurd (h refl)

lookahead-Ensures :
    (options : Options) (stream : Stream)
    → IsClean stream
    → Ensures (λ _. Unit {0}) (lookahead options stream)
unfolding lookahead
lookahead-Ensures options (token t (fault e)) c = raised e c.1
lookahead-Ensures options (token t (last t')) c = returns tt
lookahead-Ensures options (token t (token t' more)) c = returns tt
lookahead-Ensures options (last t) c = returns tt
lookahead-Ensures options (fault e) c = raised e c

module _ (options : Options) (fuel : ℕ) where
  parse_operation-Sound :
      SoundDefinition options fuel
        (parse_operation_definition options fuel >>> λ d. pure (operation_definition d))
  unfolding definition_lexemes
  parse_operation-Sound s c h =
      Ensures-bind (parse_operation_definition-Read options fuel s c h) λ (d, s') r. returns r

  parse_fragment-Sound :
      SoundDefinition options fuel
        (parse_fragment_definition options fuel >>> λ d. pure (fragment_definition d))
  unfolding definition_lexemes
  parse_fragment-Sound s c h =
      Ensures-bind (parse_fragment_definition-Read options fuel s c h)
        λ (d, s') r. returns (false, r)

  -- One of two functions, both sound.
  either-Sound :
      (b : Bool) {p q : Parser Definition}
      → SoundDefinition options fuel p
      → SoundDefinition options fuel q
      → SoundDefinition options fuel (if b then p else q)
  either-Sound true hp hq = hp
  either-Sound false hp hq = hq

  unexpected_at-Sound :
      (stream : Stream) → SoundDefinition options fuel (unexpected_at options stream)
  unfolding unexpected_at
  unexpected_at-Sound stream s c h = raises

  extension_by_keyword-Sound :
      (t : Text) (stream : Stream)
      → SoundDefinition options fuel (extension_by_keyword options fuel t stream)
  unfolding extension_by_keyword
  extension_by_keyword-Sound t stream = either-Sound _ (parse_schema_extension-Sound options fuel) (
      either-Sound _ (parse_scalar_type_extension-Sound options fuel) (
        either-Sound _ (parse_object_type_extension-Sound options fuel) (
          either-Sound _ (parse_interface_type_extension-Sound options fuel) (
            either-Sound _ (parse_union_type_extension-Sound options fuel) (
              either-Sound _ (parse_enum_type_extension-Sound options fuel) (
                either-Sound _ (parse_input_object_type_extension-Sound options fuel) (
                  either-Sound _ (parse_directive_definition_extension-Sound options fuel)
                    (unexpected_at-Sound stream))))))))

  parse_type_system_extension-Sound :
      SoundDefinition options fuel (parse_type_system_extension options fuel)
  unfolding parse_type_system_extension
  parse_type_system_extension-Sound s c h =
      Ensures-bind (lookahead-Ensures options s.stream c) λ ahead u.
        Ensures-if (same (kind_of ahead) name)
          (λ e. extension_by_keyword-Sound (text_of ahead) ahead s c h)
          (λ e. unexpected_at-Sound ahead s c h)

  no_description-Sound :
      SoundDefinition options fuel
        (λ s. err (syntax_error (start_of s.stream) description_not_supported))
  no_description-Sound s c h = raises

  definition_by_keyword-Sound :
      (described : Bool) (t : Text) (here : Stream)
      → SoundDefinition options fuel (definition_by_keyword options fuel described t here)
  unfolding definition_by_keyword
  definition_by_keyword-Sound described t here =
      either-Sound _ (parse_schema_definition-Sound options fuel) (
        either-Sound _ (parse_scalar_type_definition-Sound options fuel) (
          either-Sound _ (parse_object_type_definition-Sound options fuel) (
            either-Sound _ (parse_interface_type_definition-Sound options fuel) (
              either-Sound _ (parse_union_type_definition-Sound options fuel) (
                either-Sound _ (parse_enum_type_definition-Sound options fuel) (
                  either-Sound _ (parse_input_object_type_definition-Sound options fuel) (
                    either-Sound _ (parse_directive_definition-Sound options fuel) (
                      either-Sound _ parse_operation-Sound (
                        either-Sound _ parse_fragment-Sound (
                          either-Sound _ no_description-Sound (
                            either-Sound _ parse_type_system_extension-Sound
                              (unexpected_at-Sound here))))))))))))

  definition_at-Sound :
      (described : Bool) (here : Stream)
      → SoundDefinition options fuel (definition_at options fuel described here)
  unfolding definition_at
  definition_at-Sound described here s c h =
      Ensures-if (described && same (kind_of here) brace_l) (λ e. raises)
        (λ e.
          Ensures-if (same (kind_of here) name)
            (λ e'. definition_by_keyword-Sound described (text_of here) here s c h)
            (λ e'. unexpected_at-Sound here s c h))

  -- With fuel above the number of tokens that are left, a definition of any kind, or an extension,
  -- is parsed or rejected, and the tokens consumed are those that the grammar derives from it.
  pub parse_definition-Read :
      (s : ParserState)
      → IsClean s.stream
      → size s < fuel
      → Ensures (DefinitionRead options s) (parse_definition options fuel s)
  unfolding parse_definition
  parse_definition-Read s c h =
      Ensures-if (peek options brace_l s) (λ e. parse_operation-Sound s c h)
        (λ e.
          Ensures-if (peek options string s || peek options block_string s)
            (λ e'.
              Ensures-bind (lookahead-Ensures options s.stream c)
                λ here u. definition_at-Sound true here s c h)
            (λ e'. definition_at-Sound false s.stream s c h))
