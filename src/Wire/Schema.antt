-- ===== src/Wire/Schema.antt =====
-- internal/proto/proto.go: `SchemaFields`, which writes the runner's schema for the worker; the text
-- of a type is `FieldType.String` of internal/conf/conf.go.
use serify.Base.{List, [], ◌∷◌, ◌++◌, Str, Assoc, lit, decimal, join}
use serify.Kind.{spell}
use serify.Conf.{
  FieldType, scalar, optional, list, array, map, struct, enum, sum, Fields, no_fields, field,
  Variants, no_variants, unit_variant, variant, Field,
}
use serify.Wire.{
  SchemaField, schema_field, SchemaFields, no_schema, then_field, SchemaVariants,
  no_schema_variants, unit_arm, arm,
}

unfoldable mutual
  unfolding spell join

  -- `FieldType.String`
  pub type_text : FieldType → Str
  type_text (scalar k) = spell k
  type_text (optional t) = lit "optional<" ++ (type_text t ++ lit ">")
  type_text (list t) = lit "list<" ++ (type_text t ++ lit ">")
  type_text (array t n) = lit "array<" ++ (type_text t ++ (b',' ∷ (decimal n ++ lit ">")))
  type_text (map k t) = lit "map<" ++ (type_text k ++ (b',' ∷ (type_text t ++ lit ">")))
  type_text (struct fs) = lit "struct"
  type_text (enum names) = lit "enum<" ++ (join (lit ",") names ++ lit ">")
  type_text (sum vs) = lit "sum<" ++ (join (lit ", ") (variant_texts vs) ++ lit ">")

  pub variant_texts : Variants → List Str
  variant_texts no_variants = []
  variant_texts (unit_variant name vs) = name ∷ variant_texts vs
  variant_texts (variant name t vs) = (name ++ (lit ": " ++ type_text t)) ∷ variant_texts vs

unfoldable mutual
  unfolding type_text

  -- `schemaFieldOfType`
  pub schema_field_of_type : Str → FieldType → SchemaField
  schema_field_of_type name (struct fs) =
      schema_field name (type_text (struct fs)) (schema_of_fields fs) [] no_schema_variants []
  schema_field_of_type name (list t) =
      schema_field name (type_text (list t)) (elem_schema t) [] no_schema_variants []
  schema_field_of_type name (optional t) =
      schema_field name (type_text (optional t)) (elem_schema t) [] no_schema_variants []
  schema_field_of_type name (map k t) =
      schema_field name (type_text (map k t)) (elem_schema t) (type_text k) no_schema_variants []
  schema_field_of_type name (sum vs) =
      schema_field name (type_text (sum vs)) no_schema [] (schema_arms vs) []
  schema_field_of_type name (scalar k) =
      schema_field name (type_text (scalar k)) no_schema [] no_schema_variants []
  schema_field_of_type name (array t n) =
      schema_field name (type_text (array t n)) no_schema [] no_schema_variants []
  schema_field_of_type name (enum names) =
      schema_field name (type_text (enum names)) no_schema [] no_schema_variants []

  -- the nested fields of a list, an optional or a map of structs
  pub elem_schema : FieldType → SchemaFields
  elem_schema (struct fs) = schema_of_fields fs
  elem_schema _ = no_schema

  pub schema_of_fields : Fields → SchemaFields
  schema_of_fields no_fields = no_schema
  schema_of_fields (field name t fs) =
      then_field (schema_field_of_type name t) (schema_of_fields fs)

  pub schema_arms : Variants → SchemaVariants
  schema_arms no_variants = no_schema_variants
  schema_arms (unit_variant name vs) = unit_arm name (schema_arms vs)
  schema_arms (variant name t vs) = arm name (schema_field_of_type name t) (schema_arms vs)

abbrev pub with_tags : Assoc Str → SchemaField → SchemaField
with_tags tags (schema_field name typ fields key vs old) = schema_field name typ fields key vs tags

-- `SchemaFields` of a type's schema
unfoldable pub schema_fields : List Field → SchemaFields
unfolding schema_field_of_type
schema_fields [] = no_schema
schema_fields (f ∷ fs) =
    then_field (with_tags f.tags (schema_field_of_type f.name f.type)) (schema_fields fs)
