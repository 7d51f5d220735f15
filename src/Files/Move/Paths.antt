-- ===== src/Files/Move/Paths.antt =====
-- src/file-service.ts, `movePath`: what its calls leave at each path.
use chatgpt_remote_mcp.Base.{
  ◌≡◌, ◌≢◌, refl, ap, ◌∙◌, inl, inr, false, Option, none, some, String, arith, str_eq, eq_iff, Dict,
  lookup, put, delete, lookup-put, lookup-delete, if◌then◌else◌, Bool-cases,
}
use chatgpt_remote_mcp.Files.Move.{remove_path, rename_path, set_path}

module _ {Tree : Type 0} where
  pub lookup-set_path :
      (k j : String) (o : Option Tree) (s : Dict Tree)
      → lookup j (set_path k o s) ≡ (if str_eq k j then o else lookup j s)
  lookup-set_path k j none s = lookup-delete k j s
  lookup-set_path k j (some t) s = lookup-put k j t s

  pub lookup-rename_path :
      (a b j : String) (s : Dict Tree)
      → lookup a s ≢ none
      → lookup j (rename_path a b s)
        ≡ (if str_eq b j then lookup a s else if str_eq a j then none else lookup j s)
  lookup-rename_path a b j s h = go (lookup a s) h
    where
      go :
          (o : Option Tree)
          → o ≢ none
          → lookup j (elim o [ none ↦ s | some tree ↦ put b tree (delete a s) ])
            ≡ (if str_eq b j then o else if str_eq a j then none else lookup j s)
      go none k = absurd (k refl)
      go (some t) k = ground (arith, lookup-put b j t (delete a s), lookup-delete a j s)

  -- A store that holds the same.
  abbrev pub IsSame : Dict Tree → Dict Tree → Type 0
  IsSame s t = (p : String) → lookup p s ≡ lookup p t

  -- What is left after a copy is removed, and after its destination is put back.
  pub cleared :
      (destination p : String) (partial : Option Tree) (store : Dict Tree)
      → lookup p (delete destination (set_path destination partial store))
        ≡ (if str_eq destination p then none else lookup p store)
  cleared destination p partial store = ground (
    arith,
    lookup-delete destination p (set_path destination partial store),
    lookup-set_path destination p partial store,
  )

  pub lookup-remove_path :
      (fault : Option (Option Tree)) (k j : String) (s : Dict Tree)
      → str_eq k j ≡ false
      → lookup j (remove_path fault k s) ≡ lookup j s
  lookup-remove_path none k j s h = ground (arith, lookup-delete k j s, h)
  lookup-remove_path (some partial) k j s h = ground (arith, lookup-set_path k j partial s, h)

  -- Where something stands and where nothing does are two paths.
  pub apart :
      (p q : String) (store : Dict Tree)
      → lookup p store ≢ none
      → lookup q store ≡ none
      → str_eq p q ≡ false
  apart p q store a b = elim (Bool-cases (str_eq p q)) [
    | inr e ↦ e
    | inl e ↦ let same : p ≡ q = (eq_iff p q).0 e in absurd (a (ap (λ r. lookup r store) same ∙ b))
  ]
