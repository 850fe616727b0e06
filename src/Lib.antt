-- ===== src/Lib.antt =====
-- GraphQL-core: from the text of a request or a schema to its syntax tree; types and schemas; and the
-- execution of an operation.
--
-- The lexer (src/graphql/language/lexer.py) reads one token at a time from the body of a source and
-- counts lines; the parser (src/graphql/language/parser.py) asks it for the next token, or looks one
-- token further ahead, and builds the nodes of src/graphql/language/ast.py by recursive descent. The
-- lexer calls src/graphql/language/block_string.py for the value of a block string.
-- src/graphql/language/print_string.py writes string literals that the lexer reads back.
--
-- - Prelude, Text, Errors: numbers, lists, texts as lists of code points, and exceptions as values.
--   An error is a GraphQLSyntaxError with its position and what its message quotes, Python's
--   IndexError, or exhausted fuel, which has no counterpart in the program. Ensures says that a run
--   returns a value with a property or raises an exception of the program.
-- - Characters, TokenKind: src/graphql/language/character_classes.py and token_kind.py.
-- - Lexer.Token, Lexer.Scan: Token, Lexer.line and Lexer.line_start as the record Lines, and the loop
--   `while position < body_length`, one round at each position, on fuel beyond the characters left.
-- - Lexer.Numbers, Strings, Escapes, Blocks, Next: the functions of the same names in the source.
--   lex is the stream of tokens that advance and lookahead give, comments skipped; Lexer.Bounds,
--   Lexer.Order and Lexer.Names are about the places of its tokens and about names.
-- - BlockString: dedent_block_string_lines, with sys.maxsize of a 64-bit build. Value is the value of a
--   block string by the specification's algorithm; Measure is about the first loop of the function.
-- - PrintString: print_string, and in RoundTrip the lexer on what it prints.
-- - Location: Source.get_location, with Python's str.splitlines; Lines proves where positions are.
-- - Ast: the nodes, without locations. A name node is its text, a tuple a list.
-- - Grammar: the tokens of each node, as an independent description of the language. A Boolean makes
--   the choices that a node does not record. Spells derives the tokens of a document.
-- - Parser.State, Combinators: the parser's options, its current token and counter, and the
--   methods that look at a token or read a list. Parser.Values, Executable, TypeSystem, Document: the
--   parsing methods, named as in the source; parse, parse_value, parse_const_value and parse_type.
-- - Parser.Reads: what a run of a parser has consumed. Parser.Sound: the methods
--   against the grammar. Parser.Constants: constant values. Parser.Forward, Parser.Complete: the
--   parser on the known tokens of a value or a type.
--
-- The type system stands on src/graphql/type/definition.py and schema.py. The executor
-- (src/graphql/execution/executor.py) asks the schema for the fields of a type and for the sub types of
-- an abstract type, calls the resolvers of the application, and collects the errors of fields.
--
-- - Dict: dicts with string keys. Types: the classes of types; a named type stands in others as a
--   Reference, its class and name. Types.Schema: the maps that GraphQLSchema.__init__ fills from the
--   collected types, is_sub_type with its cache. A Reference stands for the object that the schema has under
--   its name; is_sub_type_cached takes any object and reads the members of a union off it. Names,
--   Implementations and SubTypes prove what the maps and the cache hold.
-- - Types.Collected: TypeSet.collect_referenced_types, with type objects as numbers. Held says, apart from
--   the function, what a type holds and which types are reached; Counts and Closure are about what is
--   collected.
-- - Types.Comparators: src/graphql/utilities/type_comparators.py and type_from_ast.py, with the identity
--   of objects as a parameter. Overlap proves what overlapping types are. Types.Fields:
--   GraphQLSchema.get_field. Types.FromAst proves what type_from_ast gives.
-- - Execution.CollectedErrors: the class of this name. Execution.Host: the schema, the resolvers and the
--   other functions of the application, and computations that collect errors and may raise.
--   Execution.Executor, Operation: the methods of Executor, named as in the source, without awaitable
--   values. A resolver is a function of its arguments; iterating over a list does not raise.
-- - Execution.CollectFields: collect_fields.py, with its Collector. The state is a Collection; Visited counts how often fragments can
--   still be entered, Groups is about grouped field sets; Collects, Selected and Depth are about what collecting gives.
--   Execution.Requests: the executor on the fields that are collected.
-- - Execution.Shape: the data that a type and the selections allow. Execution.Runs, Positions, Completion, Fields,
--   Serial, Errors, Answers: what the executor's computations give.
--
-- execute_fields has fuel for the depth of objects in objects: above the depth of the selections it is not
-- exhausted. collect_fields_impl has fuel for the fragments that are entered within one another: each is
-- entered at most twice, once as deferred. collect_referenced_types has fuel for the types held by one another: above
-- the number of types that are reached it is enough.
--
-- Each recursive method and each loop of the parser has fuel, at least as much as tokens are left:
-- enough gives three more than the characters of the body, and the fuel suffices where a result speaks of Ensures.
--
-- The lexer's tokens are a stream that is computed from the body, where the program reads each token
-- when it is first looked at: an error in the stream is raised when the parser gets there. Not
-- modelled: the wording of messages, locations of nodes, the links between tokens, schema coordinates.
-- Of execution, awaitable values, abort signals, streams, incremental delivery and subscriptions are not
-- modelled; the coercion of argument values is a part of the resolvers of the model. Validation, the
-- printer, the visitor, and the building and comparison of schemas are not modelled.
mod Prelude
pub mod Errors
pub mod Characters
pub mod TokenKind
pub mod Text
pub mod Dict
pub mod Ast
pub mod BlockString
pub mod Lexer
pub mod PrintString
pub mod Grammar
pub mod Parser
pub mod Types
pub mod Location
pub mod Execution
