-- ===== src/Notification/Render.antt =====
-- api/src/notification/domain/render.ts: the templates of locales/, and a message made from one.
-- Reading and parsing a bundle is the parameter `read`, which gives nothing where either throws.
use sobkichu.Prelude.{
  ℕ, ◌-◌, Bool, false, not, ◌&&◌, ◌||◌, Option, none, some, List, [], ◌∷◌, ◌++◌, leb, ◌==◌,
  if◌then◌else◌, Result, ok, ◌>>=◌, or_throw, missing_template, plain_error, String, Text, lit,
  text_eq, is_empty, is_digit, any_char, throw_if, ◌>>◌, length, take, drop,
}

-- A parsed bundle: `other` is a value that is neither a text nor an object, or an array.
mutual
  pub data Json : Type 0 where
    object : Members → Json
    text : Text → Json
    other : Json

  pub data Members : Type 0 where
    end : Members
    member : Text → Json → Members → Members

pub record Leaf : Type 0 where
  pub path : Text
  pub value : Option Text

abbrev pub join_path : Text → Text → Text
join_path prefix key = if is_empty prefix then key else prefix ++ (b'.' ∷ key)

-- `flatten`, with the assignments to `out` in their order.
unfoldable mutual
  pub flatten : Text → Members → List Leaf
  flatten prefix end = []
  flatten prefix (member key nested rest) =
      flatten_value (join_path prefix key) nested ++ flatten prefix rest

  pub flatten_value : Text → Json → List Leaf
  flatten_value path (object members) = flatten path members
  flatten_value path (text value) = record { path = path; value = some value } ∷ []
  flatten_value path other = record { path = path; value = none } ∷ []

pub data Field : Type 0 where
  in_title in_body : Field

unfoldable pub field_suffix : Field → Text
unfolding lit
field_suffix in_title = lit ".title"
field_suffix in_body = lit ".body"

-- Line ends, which `.` does not match.
abbrev pub is_line_end : ℕ → Bool
is_line_end c = c == 10 || c == 13 || c == 8232 || c == 8233

-- `s` without a suffix, where it ends with the suffix and `.*` matches the rest.
unfoldable pub without_suffix : Text → Text → Option Text
without_suffix suffix s =
    let rest = length s - length suffix in
    if text_eq (drop rest s) suffix && not (any_char is_line_end (take rest s))
    then some (take rest s)
    else none

-- `/^(.*)\.(title|body)$/`
unfoldable pub match_field : Text → Option (Text × Field)
unfolding without_suffix field_suffix
match_field dotted = elim (without_suffix (field_suffix in_title) dotted) [
  | some key ↦ some (key, in_title)
  | none ↦ elim (without_suffix (field_suffix in_body) dotted) [
    | some key ↦ some (key, in_body)
    | none ↦ none
  ]
]

pub record Template : Type 0 where
  pub title_text : Text
  pub body_text : Text

abbrev pub set_field : Field → Text → Template → Template
set_field in_title value template = record template { title_text = value }
set_field in_body value template = record template { body_text = value }

-- `templates[key][locale]`, as a list of entries.
pub record Entry : Type 0 where
  pub key : Text
  pub locale : Text
  pub template : Template

abbrev pub is_entry : Text → Text → Entry → Bool
is_entry key locale entry = text_eq entry.key key && text_eq entry.locale locale

unfoldable pub assign : Text → Text → Field → Text → List Entry → List Entry
assign key locale field value [] =
    record {
      key = key;
      locale = locale;
      template = set_field field value (record { title_text = []; body_text = [] });
    }
    ∷ []
assign key locale field value (entry ∷ entries) =
    let rest = assign key locale field value entries in
    if is_entry key locale entry
    then record entry { template = set_field field value entry.template } ∷ entries
    else entry ∷ rest

-- The body of the loop over the leaves of a bundle.
unfoldable pub load_leaf : Text → Leaf → List Entry → List Entry
unfolding assign match_field lit
load_leaf locale leaf entries = elim leaf.value [
  | none ↦ entries
  | some value ↦ elim (match_field leaf.path) [
    | none ↦ entries
    | some (key, field) ↦ assign (lit "notification." ++ key) locale field value entries
  ]
]

unfoldable pub load_leaves : Text → List Leaf → List Entry → List Entry
unfolding load_leaf
load_leaves locale [] entries = entries
load_leaves locale (leaf ∷ leaves) entries =
    load_leaves locale leaves (load_leaf locale leaf entries)

unfoldable pub source_locale : Text
unfolding lit
source_locale = lit "bn"

-- The second locale of the loop, which may be missing.
unfoldable pub load_english : Option Members → List Entry → List Entry
unfolding flatten load_leaves lit
load_english none entries = entries
load_english (some members) entries = load_leaves (lit "en") (flatten [] members) entries

unfoldable pub load_templates : (Text → Option Members) → Result (List Entry)
unfolding flatten load_leaves load_english source_locale lit
load_templates read = do
  members ←
      or_throw (read source_locale) (plain_error "Cannot load required bn notification templates")
  ok (load_english (read (lit "en")) (load_leaves source_locale (flatten [] members) []))

unfoldable pub has_key : Text → List Entry → Bool
has_key key [] = false
has_key key (entry ∷ entries) = text_eq entry.key key || has_key key entries

unfoldable pub find_template : Text → Text → List Entry → Option Template
find_template key locale [] = none
find_template key locale (entry ∷ entries) =
    if is_entry key locale entry then some entry.template else find_template key locale entries

-- `byLanguage[language] ?? byLanguage[SOURCE_LOCALE]`
unfoldable pub choose_template : Text → Text → List Entry → Option Template
unfolding find_template source_locale
choose_template key language entries = elim (find_template key language entries) [
  | some template ↦ some template
  | none ↦ find_template key source_locale entries
]

-- `\w`
unfoldable pub is_word : ℕ → Bool
is_word c = is_digit c || (leb b'A' c && leb c b'Z') || (leb b'a' c && leb c b'z') || c == b'_'

-- `params[key]` of a name that no JavaScript object inherits; an object literal has each key once.
unfoldable pub find_param : Text → List (String × Text) → Option Text
unfolding lit
find_param key [] = none
find_param key ((name, value) ∷ params) =
    if text_eq (lit name) key then some value else find_param key params

abbrev pub param_or_throw : Text → List (String × Text) → Result Text
param_or_throw key params =
    or_throw (find_param key params) (missing_template "Missing parameter for notification")

-- `text.replace(/\{(\w+)\}/g, …)`, from left to right. `some key` is a match that has begun with a
-- brace and the word `key`; where it fails, its text stands as it is.
unfoldable pub scan : List (String × Text) → Option Text → Text → Result Text
unfolding find_param is_word
scan params none [] = ok []
scan params (some key) [] = ok (b'{' ∷ key)
scan params none (c ∷ s) =
    let plain = scan params none s in
    let begun = scan params (some []) s in
    if c == b'{' then begun else plain >>= (λ rest. ok (c ∷ rest))
scan params (some key) (c ∷ s) =
    let longer = scan params (some (key ++ c ∷ [])) s in
    let again = scan params (some []) s in
    let plain = scan params none s in
    if is_word c
    then longer
    else if c == b'}' && not (is_empty key)
    then param_or_throw key params >>= (λ value. plain >>= (λ rest. ok (value ++ rest)))
    else if c == b'{'
    then again >>= (λ rest. ok (b'{' ∷ (key ++ rest)))
    else plain >>= (λ rest. ok (b'{' ∷ (key ++ c ∷ rest)))

unfoldable pub substitute : Text → List (String × Text) → Result Text
unfolding scan
substitute template params = scan params none template

pub record RenderedMessage : Type 0 where
  pub title : Text
  pub body : Text

unfoldable pub fill_template : Template → List (String × Text) → Result RenderedMessage
unfolding substitute
fill_template template params = do
  title ← substitute template.title_text params
  body ← substitute template.body_text params
  ok (record { title = title; body = body })

unfoldable pub render_template :
    List Entry → Text → Text → List (String × Text) → Result RenderedMessage
unfolding has_key choose_template fill_template
render_template entries key language params = do
  throw_if (not (has_key key entries)) (missing_template "No template for key")
  template ←
      or_throw (choose_template key language entries)
        (missing_template "Template has no 'bn' entry to fall back to")
  fill_template template params
