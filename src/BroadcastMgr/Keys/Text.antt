-- ===== src/BroadcastMgr/Keys/Text.antt =====
-- The text of keys, read again.
use cylc_flow.Prelude.{
  ◌≡◌, refl, sym, ◌∙◌, ap, String, true, false, Option, none, some, List, [], ◌∷◌, if◌then◌else◌,
  string_eq, nat_eq, ℕ_discrete, arith,
}
use cylc_flow.Prelude.Int.{int_eq}
use Prim.Native.Char.{Char}
use Prim.Native.String.{◌++◌ as ◌<>◌}
use Prim.Native.String.append
use text.Mathlib.TextLemmas.{append_assoc, append-nil}
use cylc_flow.BroadcastMgr.{Item, Settings, empty, leaf, section}
use cylc_flow.BroadcastMgr.Keys.{
  open_bracket, close_bracket, is_close, has_close, is_empty, bracket, change_from, find_sections,
  after_last, parse_key,
}

-- A value in a dictionary for each of the sections.
unfoldable pub nest_in : List String → String → Option Item → Settings
nest_in [] key v = leaf key v empty
nest_in (s ∷ ss) key v = section s (nest_in ss key v) empty

-- The text of the keys.
unfoldable pub keys_text : List String → String → String
keys_text [] key = key
keys_text (s ∷ ss) key = String.◌∷◌ open_bracket (s <> String.◌∷◌ close_bracket (keys_text ss key))

-- Names that can be told apart in a text: none has a "]", and a section has a name.
unfoldable pub IsPrintable : List String → String → Type 0
unfolding has_close
IsPrintable [] key = has_close key ≡ false
IsPrintable (s ∷ ss) key = (is_empty s ≡ false) × (has_close s ≡ false) × IsPrintable ss key

bracket_append :
    (s rest : String)
    → bracket s <> rest ≡ String.◌∷◌ open_bracket (s <> String.◌∷◌ close_bracket rest)
bracket_append s rest =
    append.cons open_bracket (s <> String.◌∷◌ close_bracket String.[]) rest
    ∙ ap (String.◌∷◌ open_bracket) (
        append_assoc s (String.◌∷◌ close_bracket String.[]) rest
        ∙ ap (λ t. s <> t)
            (append.cons close_bracket String.[] rest
              ∙ ap (String.◌∷◌ close_bracket) (append.nil rest)))

change_from-eq :
    (keys_str : String) (ss : List String) (key : String) (v : Option Item)
    → change_from keys_str (nest_in ss key v) ≡ some (keys_str <> keys_text ss key, v)
unfolding change_from nest_in keys_text
change_from-eq keys_str [] key v = refl
change_from-eq keys_str (s ∷ ss) key v =
    change_from-eq (keys_str <> bracket s) ss key v
    ∙ ap (λ t. some (t, v))
        (append_assoc keys_str (bracket s) (keys_text ss key)
          ∙ ap (λ t. keys_str <> t) (bracket_append s (keys_text ss key)))

pub change-keys_text :
    (ss : List String) (key : String) (v : Option Item)
    → change_from String.[] (nest_in ss key v) ≡ some (keys_text ss key, v)
change-keys_text ss key v =
    change_from-eq String.[] ss key v ∙ ap (λ t. some (t, v)) (append.nil (keys_text ss key))

find_sections-none :
    (reading : Option String) (s : String) → has_close s ≡ false → find_sections reading s ≡ []
unfolding find_sections has_close
find_sections-none reading String.[] h = refl
find_sections-none none (String.◌∷◌ c s) h =
    ground (arith, find_sections-none none s, find_sections-none (some String.[]) s)
find_sections-none (some read) (String.◌∷◌ c s) h =
    ground (arith, find_sections-none (some (read <> String.◌∷◌ c String.[])) s)

is_empty-snoc : (read : String) (c : Char) → is_empty (read <> String.◌∷◌ c String.[]) ≡ false
is_empty-snoc String.[] c = ap is_empty (append.nil (String.◌∷◌ c String.[]))
is_empty-snoc (String.◌∷◌ d read) c = ap is_empty (append.cons d read (String.◌∷◌ c String.[]))

find_sections-inside :
    (read s rest : String)
    → is_empty read ≡ false
    → has_close s ≡ false
    → find_sections (some read) (s <> String.◌∷◌ close_bracket rest)
      ≡ (read <> s) ∷ find_sections none rest
unfolding find_sections has_close ℕ_discrete
find_sections-inside read String.[] rest e h =
    ap (find_sections (some read)) (append.nil (String.◌∷◌ close_bracket rest))
    ∙ rw e (ap (λ t. t ∷ find_sections none rest) (sym (append-nil read)))
find_sections-inside read (String.◌∷◌ c s) rest e h =
    let open_c : is_close c ≡ false = ground arith in
    ap (find_sections (some read)) (append.cons c s (String.◌∷◌ close_bracket rest))
    ∙ rw open_c (
        find_sections-inside (read <> String.◌∷◌ c String.[]) s rest (is_empty-snoc read c)
          (ground arith))
    ∙ ap (λ t. t ∷ find_sections none rest)
        (append_assoc read (String.◌∷◌ c String.[]) s
          ∙ ap (λ t. read <> t) (append.cons c String.[] s ∙ ap (String.◌∷◌ c) (append.nil s)))

find_sections-section :
    (s rest : String)
    → is_empty s ≡ false
    → has_close s ≡ false
    → find_sections (some String.[]) (s <> String.◌∷◌ close_bracket rest)
      ≡ s ∷ find_sections none rest
unfolding find_sections has_close ℕ_discrete
find_sections-section String.[] rest e h = absurd (ground arith)
find_sections-section (String.◌∷◌ c s) rest e h =
    let open_c : is_close c ≡ false = ground arith in
    ap (find_sections (some String.[])) (append.cons c s (String.◌∷◌ close_bracket rest))
    ∙ rw open_c (
        find_sections-inside (String.[] <> String.◌∷◌ c String.[]) s rest
          (is_empty-snoc String.[] c) (ground arith))
    ∙ ap (λ t. t ∷ find_sections none rest)
        (append_assoc String.[] (String.◌∷◌ c String.[]) s
          ∙ append.nil (String.◌∷◌ c String.[] <> s)
          ∙ append.cons c String.[] s
          ∙ ap (String.◌∷◌ c) (append.nil s))

find_sections-keys_text :
    (ss : List String) (key : String)
    → IsPrintable ss key
    → find_sections none (keys_text ss key) ≡ ss
unfolding find_sections keys_text IsPrintable ℕ_discrete
find_sections-keys_text [] key h = find_sections-none none key h
find_sections-keys_text (s ∷ ss) key (named, clear, h) =
    find_sections-section s (keys_text ss key) named clear
    ∙ ap (λ t. s ∷ t) (find_sections-keys_text ss key h)

has_close-append : (s rest : String) → has_close (s <> String.◌∷◌ close_bracket rest) ≡ true
unfolding has_close ℕ_discrete
has_close-append String.[] rest = ap has_close (append.nil (String.◌∷◌ close_bracket rest))
has_close-append (String.◌∷◌ c s) rest =
    ap has_close (append.cons c s (String.◌∷◌ close_bracket rest))
    ∙ ground (arith, has_close-append s rest)

after_last-append :
    (s rest : String)
    → after_last (s <> String.◌∷◌ close_bracket rest)
      ≡ (if has_close rest then after_last rest else rest)
unfolding after_last ℕ_discrete
after_last-append String.[] rest = ap after_last (append.nil (String.◌∷◌ close_bracket rest))
after_last-append (String.◌∷◌ c s) rest =
    ap after_last (append.cons c s (String.◌∷◌ close_bracket rest))
    ∙ rw (has_close-append s rest) (after_last-append s rest)

after_last-keys_text :
    (ss : List String) (key : String)
    → IsPrintable ss key
    → (if has_close (keys_text ss key) then after_last (keys_text ss key) else keys_text ss key)
      ≡ key
unfolding has_close after_last keys_text IsPrintable ℕ_discrete
after_last-keys_text [] key h = rw h refl
after_last-keys_text (s ∷ ss) key (named, clear, h) =
    rw (has_close-append s (keys_text ss key))
      (after_last-append s (keys_text ss key) ∙ after_last-keys_text ss key h)

has_close-keys_text :
    (s : String) (ss : List String) (key : String) → has_close (keys_text (s ∷ ss) key) ≡ true
unfolding has_close keys_text ℕ_discrete
has_close-keys_text s ss key = has_close-append s (keys_text ss key)

pub parse_key-keys_text :
    (ss : List String) (key : String)
    → IsPrintable ss key
    → parse_key (keys_text ss key) ≡ (ss, key)
unfolding parse_key IsPrintable keys_text
parse_key-keys_text [] key h = rw h refl
parse_key-keys_text (s ∷ ss) key h =
    let closed = has_close-keys_text s ss key in
    let last = after_last-keys_text (s ∷ ss) key h in
    rw closed (
      ap (λ t. (t, after_last (keys_text (s ∷ ss) key))) (find_sections-keys_text (s ∷ ss) key h)
      ∙ ap (λ t. (s ∷ ss, t))
          (sym (
              ap (λ b. if b then after_last (keys_text (s ∷ ss) key) else keys_text (s ∷ ss) key)
                closed)
            ∙ last))
