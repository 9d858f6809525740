-- ===== src/Dsl/Fields/Spec.antt =====
-- rescan/dsl/fields.py: a field of the vocabulary, a record that a rule can quantify over, and a
-- forbidden identifier. `group` and `description`, which serve the reference text alone, are left
-- out.
use rescan.Prelude.{String, Bool, Option, List, [], ◌∷◌}
use rescan.Prelude.Float.{FloatOps}
use rescan.Prelude.Text.{concat}
use rescan.Schemas.{AnonymizedProfile, Skill, Experience, Qualification, Project}

pub data Kind : Type 0 where
  number text enum bool list : Kind

-- `reader`, with the type of value that the field's kind has
pub data Reader (F S : Type 0) : Type 0 where
  number : (S → Option F) → Reader F S
  text : (S → Option String) → Reader F S
  enum : List String → (S → Option String) → Reader F S
  bool : (S → Option Bool) → Reader F S
  list : (S → Option (List String)) → Reader F S

pub record FieldSpec (F S : Type 0) : Type 0 where
  pub name : String
  pub label : String
  pub reader : Reader F S
  -- the subject and the target of a numeric reason
  pub phrasing : Option ((F → String) × (F → String))

abbrev pub kind_of : {F S : Type 0} → Reader F S → Kind
kind_of (Reader.number _) = Kind.number
kind_of (Reader.text _) = Kind.text
kind_of (Reader.enum _ _) = Kind.enum
kind_of (Reader.bool _) = Kind.bool
kind_of (Reader.list _) = Kind.list

abbrev pub enum_values : {F S : Type 0} → Reader F S → List String
enum_values (Reader.enum vs _) = vs
enum_values _ = []

-- one entry of one of the four record lists of a profile
pub data Item (F : Type 0) : Type 0 where
  skill : Skill F → Item F
  role : Experience F → Item F
  qualification : Qualification F → Item F
  project : Project F → Item F

pub record RecordSpec (F : Type 0) : Type 0 where
  pub name : String
  pub plural : String
  pub reader : AnonymizedProfile F → List (Item F)
  pub fields : List (String × FieldSpec F (Item F))
  pub summary : Item F → String

pub record ForbiddenField : Type 0 where
  pub name : String
  pub statutes : List String

module _ {F : Type 0} ⦃fl : FloatOps F⦄ where
  -- a template with one `{…:g}` between two pieces of text
  abbrev pub template : String → String → F → String
  template before after x = concat (before ∷ fl.show_g x ∷ after ∷ [])
