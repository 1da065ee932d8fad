-- ===== src/Client/Attributes.antt =====
-- The types of search attributes in src/client/client.cpp: IndexedValueTypeFromString,
-- IndexedValueTypeName, and the request of AddSearchAttributes. A text is read as the codes of its
-- characters where it is rewritten; IndexedValueType_Name of protobuf is `enum_name`.
use temporal_cpp.Prelude.{
  ℕ, ◌+◌, ◌≡◌, refl, String, Bool, true, false, Option, none, some, List, [], ◌∷◌, ◌&&◌, leb, ◌==◌,
  string_key, number_key, if◌then◌else◌, bind,
}
use Prim.Native.Char.{code}

pub data IndexedValueType : Type 0 where
  keyword : IndexedValueType
  text : IndexedValueType
  int : IndexedValueType
  double : IndexedValueType
  bool : IndexedValueType
  datetime : IndexedValueType
  keyword_list : IndexedValueType

-- None where it throws std::invalid_argument.
unfoldable pub indexed_value_type_from_string : String → Option IndexedValueType
indexed_value_type_from_string type =
    if type == "Keyword"
    then some keyword
    else if type == "Text"
    then some text
    else if type == "Int"
    then some int
    else if type == "Double"
    then some double
    else if type == "Bool"
    then some bool
    else if type == "Datetime"
    then some datetime
    else if type == "KeywordList"
    then some keyword_list
    else none

abbrev pub codes : String → List ℕ
codes String.[] = []
codes (String.◌∷◌ c s) = code c ∷ codes s

-- std::tolower on a byte, in the "C" locale.
abbrev to_lower : ℕ → ℕ
to_lower ch = if leb 65 ch && leb ch 90 then ch + 32 else ch

-- `name.substr(prefix.size())` if it starts with the prefix.
abbrev after_prefix : List ℕ → List ℕ → Option (List ℕ)
after_prefix [] name = some name
after_prefix (p ∷ ps) [] = none
after_prefix (p ∷ ps) (ch ∷ name) = if p == ch then after_prefix ps name else none

unfoldable pub strip_prefix : String → List ℕ → List ℕ
strip_prefix prefix name = elim (after_prefix (codes prefix) name) [
  | none ↦ name
  | some rest ↦ rest
]

-- The loop over the characters; '_' begins a word.
unfoldable pub title_case : Bool → List ℕ → List ℕ
title_case at_word_start [] = []
title_case at_word_start (ch ∷ name) =
    let word = title_case true name in
    let more = title_case false name in
    if ch == 95 then word else (if at_word_start then ch else to_lower ch) ∷ more

unfoldable pub indexed_value_type_name : (IndexedValueType → String) → IndexedValueType → List ℕ
unfolding strip_prefix title_case
indexed_value_type_name enum_name type =
    title_case true (strip_prefix "INDEXED_VALUE_TYPE_" (codes (enum_name type)))

-- The request of AddSearchAttributes, or none where it throws before the RPC.
unfoldable pub add_search_attributes :
    List (String × String) → Option (List (String × IndexedValueType))
unfolding indexed_value_type_from_string
add_search_attributes [] = some []
add_search_attributes ((name, type) ∷ rest) =
    bind (indexed_value_type_from_string type)
      λ t. bind (add_search_attributes rest) λ ts. some ((name, t) ∷ ts)

-- The names of the enumerators, as IndexedValueTypeFromString spells them.
abbrev pub enum_name : IndexedValueType → String
enum_name keyword = "INDEXED_VALUE_TYPE_KEYWORD"
enum_name text = "INDEXED_VALUE_TYPE_TEXT"
enum_name int = "INDEXED_VALUE_TYPE_INT"
enum_name double = "INDEXED_VALUE_TYPE_DOUBLE"
enum_name bool = "INDEXED_VALUE_TYPE_BOOL"
enum_name datetime = "INDEXED_VALUE_TYPE_DATETIME"
enum_name keyword_list = "INDEXED_VALUE_TYPE_KEYWORD_LIST"

abbrev Readable : IndexedValueType → Type 0
Readable t =
    (shown : String) × ((indexed_value_type_name enum_name t ≡ codes shown)
      × (indexed_value_type_from_string shown ≡ some t))

-- What ListSearchAttributes shows of a type is what AddSearchAttributes reads as that type.
pub indexed_value_type_name-Readable : (t : IndexedValueType) → Readable t
unfolding indexed_value_type_name indexed_value_type_from_string
indexed_value_type_name-Readable keyword = ("Keyword", (refl, refl))
indexed_value_type_name-Readable text = ("Text", (refl, refl))
indexed_value_type_name-Readable int = ("Int", (refl, refl))
indexed_value_type_name-Readable double = ("Double", (refl, refl))
indexed_value_type_name-Readable bool = ("Bool", (refl, refl))
indexed_value_type_name-Readable datetime = ("Datetime", (refl, refl))
indexed_value_type_name-Readable keyword_list = ("KeywordList", (refl, refl))
