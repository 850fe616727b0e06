-- ===== src/Ast.antt =====
-- src/graphql/language/ast.py: the nodes, without their locations. A name node is its text.
use graphql_core.Prelude.{Bool, List, Option}
use graphql_core.Errors.{Text}

mutual
  pub data Value : Type 0 where
    variable : Text → Value
    int float enum : Text → Value
    -- The Boolean is `block`.
    string : Text → Bool → Value
    boolean : Bool → Value
    null : Value
    list : Values → Value
    object : ObjectFields → Value

  -- The tuples inside a ListValueNode and an ObjectValueNode.
  pub data Values : Type 0 where
    no_values : Values
    value : Value → Values → Values

  pub data ObjectFields : Type 0 where
    no_fields : ObjectFields
    object_field : Text → Value → ObjectFields → ObjectFields

pub data TypeNode : Type 0 where
  named : Text → TypeNode
  list_of non_null : TypeNode → TypeNode

-- ArgumentNode and FragmentArgumentNode
pub record Argument : Type 0 where
  pub name : Text
  pub value : Value

-- `none` is the source's None: no parentheses.
pub record Directive : Type 0 where
  pub name : Text
  pub arguments : Option (List Argument)

abbrev pub Directives : Type 0
Directives = Option (List Directive)

mutual
  pub data Selection : Type 0 where
    -- alias, name, arguments, directives, selection set
    field : Option Text → Text → Option (List Argument) → Directives → MaybeSelections → Selection
    -- name, arguments, directives
    fragment_spread : Text → Option (List Argument) → Directives → Selection
    -- type condition, directives, selection set
    inline_fragment : Option Text → Directives → Selections → Selection

  -- `None`, or a SelectionSetNode
  pub data MaybeSelections : Type 0 where
    no_selection_set : MaybeSelections
    selection_set : Selections → MaybeSelections

  pub data Selections : Type 0 where
    no_selections : Selections
    selection : Selection → Selections → Selections

pub record VariableDefinition : Type 0 where
  pub description : Option Value
  pub variable : Text
  pub type : TypeNode
  pub default_value : Option Value
  pub directives : Directives

pub data OperationType : Type 0 where
  query mutation subscription : OperationType

pub record OperationDefinition : Type 0 where
  pub operation : OperationType
  pub description : Option Value
  pub name : Option Text
  pub variable_definitions : Option (List VariableDefinition)
  pub directives : Directives
  pub selection_set : Selections

pub record FragmentDefinition : Type 0 where
  pub description : Option Value
  pub name : Text
  pub variable_definitions : Option (List VariableDefinition)
  pub type_condition : Text
  pub directives : Directives
  pub selection_set : Selections

pub record OperationTypeDefinition : Type 0 where
  pub operation : OperationType
  pub type : Text

pub record InputValueDefinition : Type 0 where
  pub description : Option Value
  pub name : Text
  pub type : TypeNode
  pub default_value : Option Value
  pub directives : Directives

pub record FieldDefinition : Type 0 where
  pub description : Option Value
  pub name : Text
  pub arguments : Option (List InputValueDefinition)
  pub type : TypeNode
  pub directives : Directives

pub record EnumValueDefinition : Type 0 where
  pub description : Option Value
  pub name : Text
  pub directives : Directives

-- ObjectTypeDefinitionNode, InterfaceTypeDefinitionNode and their extensions, behind the description
pub record FieldsType : Type 0 where
  pub name : Text
  pub interfaces : Option (List Text)
  pub directives : Directives
  pub fields : Option (List FieldDefinition)

-- Union, enum and input object types and their extensions, with their members
pub record MembersType (A : Type 0) : Type 0 where
  pub name : Text
  pub directives : Directives
  pub members : Option (List A)

pub record DirectiveDefinition : Type 0 where
  pub description : Option Value
  pub name : Text
  pub arguments : Option (List InputValueDefinition)
  pub directives : Directives
  pub repeatable : Bool
  pub locations : List Text

pub data Definition : Type 0 where
  operation_definition : OperationDefinition → Definition
  fragment_definition : FragmentDefinition → Definition
  schema_definition : Option Value → Directives → List OperationTypeDefinition → Definition
  scalar_type_definition : Option Value → Text → Directives → Definition
  object_type_definition interface_type_definition : Option Value → FieldsType → Definition
  union_type_definition : Option Value → MembersType Text → Definition
  enum_type_definition : Option Value → MembersType EnumValueDefinition → Definition
  input_object_type_definition : Option Value → MembersType InputValueDefinition → Definition
  directive_definition : DirectiveDefinition → Definition
  schema_extension : Directives → Option (List OperationTypeDefinition) → Definition
  scalar_type_extension directive_extension : Text → Directives → Definition
  object_type_extension interface_type_extension : FieldsType → Definition
  union_type_extension : MembersType Text → Definition
  enum_type_extension : MembersType EnumValueDefinition → Definition
  input_object_type_extension : MembersType InputValueDefinition → Definition
