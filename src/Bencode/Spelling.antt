-- ===== src/Bencode/Spelling.antt =====
-- admin/torrentfile.go: values, their texts and the calls that they take.
use phimtor.Base.{ℕ, suc, ◌+◌, Option, some, [], ◌∷◌, ◌++◌, if◌then◌else◌, ◌≡◌, refl, sym, ap, ◌∙◌}
use mathlib.Core.List.{append_assoc}
use phimtor.Base.Bytes.{Bytes, codes, same_bytes}
use phimtor.Bencode.{Value, Values, Entries, append_item, append_entry}
use phimtor.Bencode.Parsing.{spell, spell_items, spell_entries, spell_int, spell_string}

unfoldable mutual
  -- The text of the last dict entry with the key "info", wherever it stands.
  pub info_value : Value → Option Bytes → Option Bytes
  info_value (Value.int negative n) info = info
  info_value (Value.string s) info = info
  info_value (Value.list vs) info = info_items vs info
  info_value (Value.dict es) info = info_entries es info

  pub info_items : Values → Option Bytes → Option Bytes
  info_items Values.nil info = info
  info_items (Values.item v vs) info = info_items vs (info_value v info)

  pub info_entries : Entries → Option Bytes → Option Bytes
  info_entries Entries.empty info = info
  info_entries (Entries.entry key v es) info =
      info_entries es
        (if same_bytes key (codes "info") then some (spell v []) else info_value v info)

unfoldable mutual
  -- The calls that a value takes.
  pub cost : Value → ℕ
  cost (Value.int negative n) = 1
  cost (Value.string s) = 1
  cost (Value.list vs) = suc (cost_items vs)
  cost (Value.dict es) = suc (cost_entries es)

  pub cost_items : Values → ℕ
  cost_items Values.nil = 1
  cost_items (Values.item v vs) = suc (cost v + cost_items vs)

  pub cost_entries : Entries → ℕ
  cost_entries Entries.empty = 1
  cost_entries (Entries.entry key v es) = suc (cost v + cost_entries es)

unfoldable pub joined_items : Values → Values → Values
joined_items Values.nil vs = vs
joined_items (Values.item w ws) vs = Values.item w (joined_items ws vs)

unfoldable pub joined_entries : Entries → Entries → Entries
joined_entries Entries.empty es = es
joined_entries (Entries.entry k v fs) es = Entries.entry k v (joined_entries fs es)

pub joined-append_item :
    (acc : Values) (v : Value) (vs : Values)
    → joined_items (append_item acc v) vs ≡ joined_items acc (Values.item v vs)
unfolding joined_items append_item
joined-append_item Values.nil v vs = refl
joined-append_item (Values.item w acc) v vs =
    ap (λ x. Values.item w x) (joined-append_item acc v vs)

pub joined_items-nil : (acc : Values) → joined_items acc Values.nil ≡ acc
unfolding joined_items
joined_items-nil Values.nil = refl
joined_items-nil (Values.item w acc) = ap (λ x. Values.item w x) (joined_items-nil acc)

pub joined-append_entry :
    (acc : Entries) (k : Bytes) (v : Value) (es : Entries)
    → joined_entries (append_entry acc k v) es ≡ joined_entries acc (Entries.entry k v es)
unfolding joined_entries append_entry
joined-append_entry Entries.empty k v es = refl
joined-append_entry (Entries.entry l w acc) k v es =
    ap (λ x. Entries.entry l w x) (joined-append_entry acc k v es)

pub joined_entries-empty : (acc : Entries) → joined_entries acc Entries.empty ≡ acc
unfolding joined_entries
joined_entries-empty Entries.empty = refl
joined_entries-empty (Entries.entry l w acc) =
    ap (λ x. Entries.entry l w x) (joined_entries-empty acc)

spell_string-append : (s k l : Bytes) → spell_string s (k ++ l) ≡ spell_string s k ++ l
spell_string-append s k l = simp append_assoc refl

mutual
  unfolding spell

  pub spell-append : (v : Value) (k l : Bytes) → spell v (k ++ l) ≡ spell v k ++ l
  spell-append (Value.int negative n) k l =
      ap (λ t. b'i' ∷ t) (sym (append_assoc (spell_int negative n) (b'e' ∷ k) l))
  spell-append (Value.string s) k l = spell_string-append s k l
  spell-append (Value.list vs) k l = ap (λ t. b'l' ∷ t) (spell_items-append vs k l)
  spell-append (Value.dict es) k l = ap (λ t. b'd' ∷ t) (spell_entries-append es k l)

  spell_items-append : (vs : Values) (k l : Bytes) → spell_items vs (k ++ l) ≡ spell_items vs k ++ l
  spell_items-append Values.nil k l = refl
  spell_items-append (Values.item v vs) k l =
      ap (spell v) (spell_items-append vs k l) ∙ spell-append v (spell_items vs k) l

  spell_entries-append :
      (es : Entries) (k l : Bytes) → spell_entries es (k ++ l) ≡ spell_entries es k ++ l
  spell_entries-append Entries.empty k l = refl
  spell_entries-append (Entries.entry key v es) k l =
      ap (λ t. spell_string key (spell v t)) (spell_entries-append es k l)
      ∙ ap (spell_string key) (spell-append v (spell_entries es k) l)
      ∙ spell_string-append key (spell v (spell_entries es k)) l
