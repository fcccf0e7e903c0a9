-- ===== src/Http/Headers/Tokens.antt =====
-- The tokens that `strip_hop_by_hop` finds in the `Connection` fields that a client wrote.
use veilid_http.Prelude.{
  ◌≤◌, ◌≡◌, refl, ap, ◌∙◌, true, false, not, ◌||◌, List, [], ◌∷◌, ◌++◌, map, length, All,
  All-append, if◌then◌else◌, ◌==◌, arith,
}
use veilid_http.Prelude.Text.{Text, ascii, to_ascii_lowercase, eq_ignore_ascii_case, split, trim}
use veilid_http.Prelude.Text.Trim.{Padding, Word, trim-padded, split-word, split-more}
use veilid_http.Stream.Types.{HeaderField}
use veilid_http.Http.Headers.{contains, connection_tokens, strip_hop_by_hop}
use veilid_http.Http.Headers.Idempotence.{contains-append}
use veilid_http.Http.Headers.Fields.{values_of, values_of-denied}

-- An element of a list in a field: a token between spaces and tabs.
pub record Element : Type 0 where
  pub before : Text
  pub token : Text
  pub after : Text

abbrev pub element_text : Element → Text
element_text e = e.before ++ (e.token ++ e.after)

-- Elements with commas between them.
abbrev pub list_text : Element → List Element → Text
list_text e [] = element_text e
list_text e (d ∷ es) = element_text e ++ b',' ∷ list_text d es

pub data Written : Type 0 where
  plain : HeaderField → Written
  connection : (name : Text) → Element → List Element → Written

abbrev pub field_of : Written → HeaderField
field_of (plain header) = header
field_of (connection name e es) = record { name = name; value = list_text e es }

-- Spaces and tabs around a token of visible ASCII without commas.
abbrev pub IsElement : Element → Type 0
IsElement e = Padding e.before × Word e.token × (1 ≤ length e.token) × Padding e.after

-- The plain fields have another name than `Connection`, the others have that name in some case.
abbrev pub IsWritten : Written → Type 0
IsWritten (plain header) = eq_ignore_ascii_case header.name (ascii "connection") ≡ false
IsWritten (connection name e es) =
    (eq_ignore_ascii_case name (ascii "connection") ≡ true) × IsElement e × All IsElement es

abbrev lower_token : Element → Text
lower_token e = to_ascii_lowercase e.token

-- The tokens of the `Connection` fields, in lower case.
abbrev pub tokens_of : List Written → List Text
tokens_of [] = []
tokens_of (plain header ∷ fields) = tokens_of fields
tokens_of (connection name e es ∷ fields) = map lower_token (e ∷ es) ++ tokens_of fields

-- The eight names that are always hop-by-hop.
abbrev pub hop_by_hop_names : List Text
hop_by_hop_names =
    ascii "connection"
    ∷ ascii "keep-alive"
    ∷ ascii "proxy-authenticate"
    ∷ ascii "proxy-authorization"
    ∷ ascii "te"
    ∷ ascii "trailer"
    ∷ ascii "transfer-encoding"
    ∷ ascii "upgrade"
    ∷ []

NoComma : Text → Type 0
NoComma s = All (λ c. not (c == b',') ≡ true) s

Padding-NoComma : (s : Text) → Padding s → NoComma s
unfolding NoComma
Padding-NoComma [] h = tt
Padding-NoComma (c ∷ s) h = (ground (arith, h.0), Padding-NoComma s h.1)

Word-NoComma : (s : Text) → Word s → NoComma s
unfolding NoComma
Word-NoComma [] h = tt
Word-NoComma (c ∷ s) h = (ground (arith, h.0), Word-NoComma s h.1)

element-NoComma : (e : Element) → IsElement e → NoComma (element_text e)
unfolding NoComma
element-NoComma e (before, word, some_byte, after) =
    All-append _ e.before (e.token ++ e.after) (Padding-NoComma e.before before)
      (All-append _ e.token e.after (Word-NoComma e.token word) (Padding-NoComma e.after after))

abbrev read_token : Text → Text
read_token value = to_ascii_lowercase (trim value)

read_token-element : (e : Element) → IsElement e → read_token (element_text e) ≡ lower_token e
read_token-element e (before, word, some_byte, after) =
    ap to_ascii_lowercase (trim-padded e.before e.token e.after before word some_byte after)

-- The tokens of one field.
split-list_text :
    (e : Element) (es : List Element)
    → IsElement e
    → All IsElement es
    → map read_token (split b',' (list_text e es)) ≡ map lower_token (e ∷ es)
unfolding NoComma
split-list_text e [] h hs =
    rw (split-word (element_text e) (element-NoComma e h), read_token-element e h) refl
split-list_text e (d ∷ es) h hs =
    rw
      (
        split-more (element_text e) (list_text d es) (element-NoComma e h),
        read_token-element e h,
        split-list_text d es hs.0 hs.1,
      )
      refl

connection_tokens-written :
    (fields : List Written)
    → All IsWritten fields
    → connection_tokens (map field_of fields) ≡ tokens_of fields
unfolding connection_tokens
connection_tokens-written [] h = refl
connection_tokens-written (plain header ∷ fields) h = rw h.0 (connection_tokens-written fields h.1)
connection_tokens-written (connection name e es ∷ fields) ((named, first, more), h) =
    rw (named, split-list_text e es first more, connection_tokens-written fields h) refl

-- For fields of which each `Connection` field, in any case of its name, is a list of tokens of visible
-- ASCII without commas, with spaces and tabs around them and commas in between: `strip_hop_by_hop`
-- removes all fields whose name, in any case, is one of the eight hop-by-hop names or one of these
-- tokens, and keeps the values of every other name with their order and repetitions.
pub values_of-strip_hop_by_hop :
    (name : Text) (fields : List Written)
    → All IsWritten fields
    → values_of name (strip_hop_by_hop (map field_of fields)) ≡ (
        if contains hop_by_hop_names (to_ascii_lowercase name)
          || contains (tokens_of fields) (to_ascii_lowercase name)
        then []
        else values_of name (map field_of fields))
values_of-strip_hop_by_hop name fields h =
    values_of-denied name (map field_of fields)
    ∙ rw
        (
          connection_tokens-written fields h,
          contains-append hop_by_hop_names (tokens_of fields) (to_ascii_lowercase name),
        )
        refl
