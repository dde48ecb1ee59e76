-- ===== src/Text/Split.antt =====
-- `splitstring` and `joinstring` of projectlib/projectsipstring.cpp.
pub mod Parts
pub mod RoundTrip
use project_mediaswitch.Base.{ℕ, Bool, true, false, List, [], ◌∷◌, ◌++◌, Bytes, ◌==◌, if◌then◌else◌}

-- `str == ""`.
abbrev pub is_nil : Bytes → Bool
is_nil [] = true
is_nil (c ∷ cs) = false

-- The loop of `splitstring` and the test behind it; `item` is `stritem` and `out` is `strlist`.
unfoldable pub split_loop : ℕ → Bytes → List Bytes → Bytes → List Bytes
split_loop d item out [] = if is_nil item then out else out ++ (item ∷ [])
split_loop d item out (c ∷ cs) =
    let pushed = split_loop d [] (out ++ (item ∷ [])) cs in
    let longer = split_loop d (item ++ (c ∷ [])) out cs in if c == d then pushed else longer

-- "Make sure we are an empty string."
abbrev pub at_least_one : List Bytes → List Bytes
at_least_one [] = [] ∷ []
at_least_one (x ∷ xs) = x ∷ xs

unfoldable pub split_string : Bytes → ℕ → List Bytes
unfolding split_loop
split_string s d = at_least_one (split_loop d [] [] s)

unfoldable pub join_loop : ℕ → Bytes → List Bytes → Bytes
join_loop d ret [] = ret
join_loop d ret (x ∷ xs) = join_loop d ((if is_nil ret then ret else ret ++ (d ∷ [])) ++ x) xs

unfoldable pub join_string : List Bytes → ℕ → Bytes
unfolding join_loop
join_string items d = join_loop d [] items
