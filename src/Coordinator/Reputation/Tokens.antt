-- ===== src/Coordinator/Reputation/Tokens.antt =====
-- The tokens by which a worker resumes its record (src/coordinator/reputation.cpp).
use p2p_gpu.Base.{
  ℕ, ◌≡◌, refl, ◌∙◌, false, Option, none, some, List, [], ◌∷◌, bytes_eq, bytes_key, lookup, remove,
  lookup-insert, lookup-insert_self, keys, Distinct, insert-Distinct, lookup-remove_self,
  remove-Distinct,
}
use p2p_gpu.Protocol.Ids.{WorkerId, id_key}
use p2p_gpu.Coordinator.Reputation.{
  Reputation, ReputationTable, without_token, mint_token, resolve_token, adopt,
}

-- A worker that has a token and is given a new one, where the new text is not empty and differs from
-- the old one and the index of tokens has no key twice: the new token resolves to the worker and the
-- old one to nobody.
pub mint_token-revokes :
    {D : Type 0} (id : WorkerId) (c : ℕ) (token old : List ℕ) (t : ReputationTable D)
    → Distinct (keys t.by_token)
    → lookup id t.tokens ≡ some old
    → bytes_eq (c ∷ token) old ≡ false
    → (resolve_token (c ∷ token) (mint_token id (c ∷ token) t) ≡ some id)
      × (resolve_token old (mint_token id (c ∷ token) t) ≡ none)
unfolding mint_token resolve_token
mint_token-revokes id c token [] t d held other =
    rw held (lookup-insert_self (c ∷ token) id (remove [] t.by_token), refl)
mint_token-revokes id c token (o ∷ old) t d held other = rw held (
  lookup-insert_self (c ∷ token) id (remove (o ∷ old) t.by_token),
  lookup-insert (c ∷ token) (o ∷ old) id (remove (o ∷ old) t.by_token)
      ∙ rw other (lookup-remove_self (o ∷ old) t.by_token d),
)

without_token-Distinct :
    (o : Option (List ℕ)) (m : List (List ℕ × WorkerId))
    → Distinct (keys m)
    → Distinct (keys (without_token o m))
without_token-Distinct none m d = d
without_token-Distinct (some old) m d = remove-Distinct old m d

-- Neither a new token nor an adopted record gives the index of tokens a key twice.
index-Distinct :
    {D : Type 0} (id : WorkerId) (token : List ℕ) (r : Reputation D) (t : ReputationTable D)
    → Distinct (keys t.by_token)
    → Distinct (keys (mint_token id token t).by_token)
      × Distinct (keys (adopt id r token t).by_token)
unfolding mint_token adopt
index-Distinct id [] r t d =
    (insert-Distinct [] id _ (without_token-Distinct (lookup id t.tokens) t.by_token d), d)
index-Distinct id (c ∷ token) r t d = (
  insert-Distinct (c ∷ token) id _ (without_token-Distinct (lookup id t.tokens) t.by_token d),
  insert-Distinct (c ∷ token) id t.by_token d,
)
