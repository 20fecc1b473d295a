-- ===== src/Tests/GoValues.antt =====
-- The theorems on decryption in Go values at concrete inputs.
use go_encrypted_config_valu.Base.{
  ℕ, zero, suc, ◌-◌, ◌≡◌, ◌≢◌, ◌++◌, [], ◌∷◌, some, Bytes, codes, arith, refl, ◌∙◌, ap, true,
  if◌then◌else◌, subst,
}
use go_encrypted_config_valu.Base.Outcome.{ok, panic, starved}
use go_encrypted_config_valu.Base64.{encode}
use go_encrypted_config_valu.Config.GoValue.{update}
use go_encrypted_config_valu.Config.GoValue.{
  Value, text, other, struct_of, map_at, pointer, no_fields, field, exported, unexported,
  embedded_unexported, Fields, variable, entries, Heap, slice_at, Object, elements, element,
  no_values,
}
use go_encrypted_config_valu.Config.DecryptVars.{
  fresh, decrypt_in, decrypt_string_vars_in, copy_decrypted, walk_text, walk_value, walk_fields,
  visit_if_any, walk_object, walk_at,
}
use go_encrypted_config_valu.Config.DecryptVars.Shape.{
  shape, shape_object, shape_heap, decrypt-shape,
}
use go_encrypted_config_valu.Config.DecryptVars.Frame.{frame, frame_heap, decrypt-frame}
use go_encrypted_config_valu.Config.DecryptVars.HiddenMap.{in_front, decrypt_in-hidden_map}
use go_encrypted_config_valu.Config.DecryptVars.Ending.{Below, BelowObject, IsRanked}
use go_encrypted_config_valu.Config.DecryptVars.Spec.{
  decrypted, IsFlat, AreFlatFields, copy_decrypted-decrypted, AreFlat,
}
use go_encrypted_config_valu.Config.DecryptVars.Referred.{
  address, IsFlatObject, decrypted_object, decrypt_in-decrypted_object,
}
use go_encrypted_config_valu.Config.DecryptVars.Strings.{decrypt-HeapDecrypts}
use go_encrypted_config_valu.Config.DecryptVars.Strings.Content.{strings, AllDecrypt, HeapDecrypts}
use go_encrypted_config_valu.Base.{replicate}
use go_encrypted_config_valu.Config.KeyPair.{aes_type}
use go_encrypted_config_valu.Config.DecryptVars.AesEnding.{decrypt_in-ends}
use go_encrypted_config_valu.Config.StringVar.{new_string_var}
use go_encrypted_config_valu.Config.StringVars.{
  decrypt_all_string_vars, contains_string_vars, match_enc_var, until_brace,
}
use go_encrypted_config_valu.Config.StringVars.DecryptAll.{decrypt_all_plain, decrypt_all_first}
use go_encrypted_config_valu.Config.Value.{to_serializable}
use go_encrypted_config_valu.Tests.Packages.{packages, json, json-IsJson}
use go_encrypted_config_valu.Tests.Vars as vars
use go_encrypted_config_valu.Tests.Vars.{kwt, open_it}

-- A line with an encrypted value, and the line without it.
abbrev hidden : Bytes
hidden = codes "a: " ++ (new_string_var (to_serializable json vars.value) ++ codes "\n")

abbrev shown : Bytes
shown = codes "a: secret\n"

shows : decrypt_all_string_vars packages kwt hidden 7 ≡ (ok shown, 7)
shows =
    decrypt_all_first packages kwt (codes "a: ") (codes "\n") vars.text vars.value 7 7 json-IsJson
      (omega arith) (omega arith) open_it
    ∙ rw (decrypt_all_plain packages kwt (codes "\n") 7 (omega arith))

has_vars : contains_string_vars hidden ≡ true
unfolding contains_string_vars match_enc_var until_brace to_serializable encode
has_vars = refl

-- A struct with a pointer to that line.
abbrev config : Value
config = struct_of (field exported (pointer (some 0)) (field unexported (other 3) no_fields))

abbrev heap : Heap
heap = variable (text hidden) ∷ []

run :
    decrypt_string_vars_in packages kwt 1 fresh config (7, heap)
    ≡ (ok config, (7, variable (text shown) ∷ []))
unfolding decrypt_string_vars_in walk_text walk_value walk_fields visit_if_any walk_object walk_at
run = rw (has_vars, shows)

decrypt-shape_example :
    (shape config ≡ shape config)
    × (shape_heap (decrypt_string_vars_in packages kwt 1 fresh config (7, heap)).1.1
        ≡ shape_heap heap)
decrypt-shape_example = decrypt-shape packages kwt 1 fresh config 7 heap config (ap (λ x. x.0) run)

-- A struct with an embedded struct of an unexported type that has that line in an exported field, and
-- with that line in an unexported field.
abbrev layers_of : Bytes → Value
layers_of line = struct_of (
    field embedded_unexported (struct_of (field exported (text line) no_fields))
      (field unexported (text hidden) no_fields))

run_layers :
    decrypt_string_vars_in packages kwt 0 fresh (layers_of hidden) (7, [])
    ≡ (ok (layers_of shown), (7, []))
unfolding decrypt_string_vars_in walk_text walk_value walk_fields
run_layers = rw (has_vars, shows)

decrypt-frame_example :
    (frame (layers_of shown) ≡ frame (layers_of hidden))
    × (frame_heap (decrypt_string_vars_in packages kwt 0 fresh (layers_of hidden) (7, [])).1.1
        ≡ frame_heap [])
decrypt-frame_example =
    decrypt-frame packages kwt 0 fresh (layers_of hidden) 7 [] (layers_of shown)
      (ap (λ x. x.0) run_layers)

-- A struct with a field and behind it an unexported one with a map.
abbrev number : Fields
number = field exported (other 3) no_fields

abbrev map_heap : Heap
map_heap =
    entries ((codes "key", text hidden) ∷ [])
    ∷ variable (struct_of (in_front number (field unexported (map_at (some 0)) no_fields)))
    ∷ []

run_number :
    (walk_fields packages kwt (walk_at packages kwt 1) fresh number (7, map_heap)).0 ≡ ok number
unfolding walk_fields walk_value
run_number = refl

decrypt_in-hidden_map_example :
    (decrypt_in packages kwt 2 (pointer (some 1)) (7, map_heap)).0 ≡ panic
decrypt_in-hidden_map_example =
    decrypt_in-hidden_map packages kwt 0 0 1 number no_fields number unexported (codes "key")
      (text hidden) [] 7 map_heap (λ e. absurd (cc)) refl refl run_number

-- A pointer to a pointer to a line.
abbrev chain : Heap
chain = variable (pointer (some 1)) ∷ variable (text hidden) ∷ []

abbrev rank : ℕ → ℕ
rank a = 1 - a

chain-IsRanked : IsRanked rank (shape_heap chain)
unfolding shape shape_object BelowObject Below
chain-IsRanked zero o e =
    let same : variable (pointer (some 1)) ≡ o = cc in subst (BelowObject rank 1) same (omega arith)
chain-IsRanked (suc zero) o e =
    let same : variable (text []) ≡ o = cc in subst (BelowObject rank 0) same tt
chain-IsRanked (suc (suc a)) o e = absurd (cc)

below : Below rank 2 (shape (pointer (some 0)))
unfolding shape Below
below = omega arith

decrypt_in-ends_example : (decrypt_in packages kwt 2 (pointer (some 0)) (7, chain)).0 ≢ starved
decrypt_in-ends_example =
    decrypt_in-ends packages aes_type (replicate 16 9) rank 2 (pointer (some 0)) 7 chain
      chain-IsRanked below

-- A struct with that line in an exported and in an unexported field.
abbrev flat : Value
flat = struct_of (
    field exported (text hidden)
      (field unexported (text hidden) (field exported (text (codes "b")) no_fields)))

abbrev show_line : Bytes → Bytes
show_line s = if contains_string_vars s then shown else s

flat-IsFlat : IsFlat (λ s. decrypt_all_string_vars packages kwt s 7 ≡ (ok (show_line s), 7)) flat
unfolding IsFlat AreFlatFields contains_string_vars match_enc_var
flat-IsFlat =
    let line : decrypt_all_string_vars packages kwt hidden 7 ≡ (ok (show_line hidden), 7) =
      rw has_vars shows in
    (line, (line, (decrypt_all_plain packages kwt (codes "b") 7 (omega arith), tt)))

copy_decrypted-decrypted_example :
    copy_decrypted packages kwt 0 flat (7, []) ≡ (ok (decrypted show_line fresh flat), (7, []))
copy_decrypted-decrypted_example =
    copy_decrypted-decrypted packages kwt show_line 7 [] 0 flat flat-IsFlat

-- A slice of that line and that struct.
abbrev lines : Object
lines = elements (element (text hidden) (element flat no_values))

lines-IsFlat :
    IsFlatObject (λ s. decrypt_all_string_vars packages kwt s 7 ≡ (ok (show_line s), 7)) lines
unfolding IsFlatObject AreFlat IsFlat contains_string_vars match_enc_var
lines-IsFlat = (rw has_vars shows, (flat-IsFlat, tt))

abbrev flat_heap : Heap
flat_heap = variable (text hidden) ∷ lines ∷ []

decrypt_in-decrypted_object_example :
    decrypt_in packages kwt 1 (slice_at (some 1)) (7, flat_heap)
    ≡ (ok (slice_at (some 1)), (7, update flat_heap 1 (decrypted_object show_line lines)))
unfolding address
decrypt_in-decrypted_object_example =
    decrypt_in-decrypted_object packages kwt show_line 7 flat_heap 0 1 (slice_at (some 1)) lines
      refl refl lines-IsFlat

decrypt-HeapDecrypts_example :
    AllDecrypt packages kwt (strings config) (strings config)
    × HeapDecrypts packages kwt heap
        (decrypt_string_vars_in packages kwt 1 fresh config (7, heap)).1.1
decrypt-HeapDecrypts_example =
    decrypt-HeapDecrypts packages kwt 1 fresh config 7 heap config (ap (λ x. x.0) run)
