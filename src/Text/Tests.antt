-- ===== src/Text/Tests.antt =====
-- strscpy.c and strtok.c: the theorems at concrete strings.
use sebbu_c_libuv.Base.{
  take, ℕ, ◌-◌, ◌≡◌, List, [], ◌∷◌, ◌++◌, some, refl, arith, length, ltb, ◌==◌, if◌then◌else◌,
}
use sebbu_c_libuv.Text.{count, e2big, uv__strscpy}
use sebbu_c_libuv.Text.Copy.{uv__strscpy-take}
use sebbu_c_libuv.Text.Fields.{tokens, tokens-fields}

-- "abc", and ":a::b" for the tokens.
abbrev abc : List ℕ
abc = 97 ∷ 98 ∷ 99 ∷ []

uv__strscpy-take_example :
    uv__strscpy (abc ++ 0 ∷ 7 ∷ []) 3
    ≡ some (
        if 3 == 0
        then ([], count 0)
        else if ltb (length abc) 3
        then (abc ++ 0 ∷ [], count (length abc))
        else (take (3 - 1) abc ++ 0 ∷ [], e2big))
uv__strscpy-take_example = uv__strscpy-take abc (7 ∷ []) 3 refl (omega arith)

tokens-fields_example :
    tokens 7 (58 ∷ []) (some (58 ∷ 97 ∷ 58 ∷ 58 ∷ 98 ∷ []))
    ≡ some ([] ∷ (97 ∷ []) ∷ [] ∷ (98 ∷ []) ∷ [])
tokens-fields_example = tokens-fields 7 (58 ∷ []) (58 ∷ 97 ∷ 58 ∷ 58 ∷ 98 ∷ []) (omega arith)
