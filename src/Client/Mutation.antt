-- ===== src/Client/Mutation.antt =====
-- What applyMutation of client/node.go keeps.
use genomedb.Base.{
  ℕ, ◌+◌, ◌%◌, ◌^◌, ◌≡◌, ◌≢◌, refl, sym, ap, ◌∙◌, List, arith, if◌then◌else◌, Bytes, bytes_eq_refl,
  Result, ok, err, Result-cases, Option-cases, inl, inr, subst,
}
use genomedb.Crypto.Aead.{encrypt, decrypt}
use genomedb.Crypto.Aead.Laws.{decrypt-encrypt}
use genomedb.Crypto.Ratchet.{advance, next_pseudo_id}
use genomedb.Store.Tables.{AreText, Fragment, Store, not_found}
use genomedb.Store.{put_fragment, get_fragment, delete_fragment}
use genomedb.Store.Fragments.{
  bytes_eq-false, get_fragment-put_fragment, get_fragment-delete_fragment,
}
use genomedb.Client.Node.{
  Packages, Node, NodeError, Call, rotate, replace_fragment, apply_mutation, content_context,
}

module _ (p : Packages) where
  -- What a fragment holds: its ciphertext opened with its key.
  abbrev pub Holds : Fragment → Bytes → Type 0
  Holds f plaintext =
      decrypt p.gcm f.key f.ciphertext (content_context f.group_id f.pid) ≡ ok plaintext

  -- The new fragment of a rotation, against the one before it.
  pub record Rotated (frag new : Fragment) (pid seed : Bytes) : Type 0 where
    pub named : new.pid ≡ next_pseudo_id p.kdf pid seed
    pub counted : new.epoch ≡ (frag.epoch + 1) % 2 ^ 64
    pub grouped : new.group_id ≡ frag.group_id
    pub members_kept : new.members ≡ frag.members
    pub content : Bytes
    pub before :
        decrypt p.gcm frag.key frag.ciphertext (content_context frag.group_id pid) ≡ ok content
    pub after : Holds new content

  abbrev made : Fragment → Bytes → Bytes → Bytes → Bytes → Fragment
  made frag pid seed new_key new_ciphertext = record frag {
    pid = next_pseudo_id p.kdf pid seed;
    epoch = (frag.epoch + 1) % 2 ^ 64;
    key = new_key;
    ciphertext = new_ciphertext;
  }

  rotate_steps :
      (frag new : Fragment) (pid seed : Bytes) (src src' : p.entropy.Source)
      → rotate p frag pid seed src ≡ ok (new, src')
      → (plaintext new_key new_ciphertext : Bytes) × (src1 : p.entropy.Source) × (decrypt p.gcm
            frag.key frag.ciphertext
            (content_context frag.group_id pid)
          ≡ ok plaintext)
        × (encrypt p.gcm p.entropy new_key plaintext
              (content_context frag.group_id (next_pseudo_id p.kdf pid seed))
              src1
            ≡ ok (new_ciphertext, src'))
        × (made frag pid seed new_key new_ciphertext ≡ new)
  unfolding rotate
  rotate_steps frag new pid seed src src' run = elim (Option-cases (p.entropy.read 32 src)) [
    | inl failed ↦ cc (rw (rotate, failed) at run)
    | inr ((local_entropy, src1), drawn) ↦
        elim (Result-cases (advance p.kdf frag.key seed local_entropy)) [
          | inl (e, failed) ↦ cc (rw (rotate, drawn, failed) at run)
          | inr (new_key, advanced) ↦
              elim (Result-cases
                (decrypt p.gcm frag.key frag.ciphertext (content_context frag.group_id pid))) [
                  | inl (e, failed) ↦ cc (rw (rotate, drawn, advanced, failed) at run)
                  | inr (plaintext, opened) ↦
                      elim (Result-cases (
                        encrypt p.gcm p.entropy new_key plaintext
                          (content_context frag.group_id (next_pseudo_id p.kdf pid seed)) src1)) [
                            | inl (e, failed) ↦
                                cc (rw (rotate, drawn, advanced, opened, failed) at run)
                            | inr ((new_ciphertext, src2), sealed) ↦ (
                              plaintext,
                              new_key,
                              new_ciphertext,
                              src1,
                              opened,
                              ground arith,
                              ground arith,
                            )
                          ]
                ]
        ]
  ]

  rotate_lem :
      (frag new : Fragment) (pid seed : Bytes) (src src' : p.entropy.Source)
      → rotate p frag pid seed src ≡ ok (new, src')
      → Rotated frag new pid seed
  rotate_lem frag new pid seed src src' run =
      let (plaintext, new_key, new_ciphertext, src1, opened, sealed, is) =
        rotate_steps frag new pid seed src src' run in
      subst (λ f. Rotated frag f pid seed) is
        (record {
          named = refl;
          counted = refl;
          grouped = refl;
          members_kept = refl;
          content = plaintext;
          before = opened;
          after =
              decrypt-encrypt p.gcm p.entropy new_key plaintext
                (content_context frag.group_id (next_pseudo_id p.kdf pid seed)) new_ciphertext src1
                src' sealed;
        })

  replace_fragment_lem :
      (pid : Bytes) (new : Fragment) (now : ℕ) (s s' : Store) (src src' : p.entropy.Source)
      → replace_fragment p pid new now s src ≡ (ok src', s')
      → (s1 : Store) × (put_fragment p.gcm p.codec p.entropy new now s src ≡ ok (s1, src'))
        × (delete_fragment p.gcm p.codec pid s1 ≡ ok s')
  unfolding replace_fragment
  replace_fragment_lem pid new now s s' src src' run =
      elim (Result-cases (put_fragment p.gcm p.codec p.entropy new now s src)) [
        | inl (e, failed) ↦ cc (rw (replace_fragment, failed) at run)
        | inr ((s1, src1), put) ↦ elim (Result-cases (delete_fragment p.gcm p.codec pid s1)) [
          | inl (e, failed) ↦ cc (rw (replace_fragment, put, failed) at run)
          | inr (s2, deleted) ↦ (s1, ground arith, ground arith)
        ]
      ]

  apply_mutation_steps :
      (pid seed reason : Bytes) (now : ℕ) (n n' : Node p.entropy.Source) (calls : List Call)
      (frag : Fragment)
      → get_fragment p.gcm p.codec pid n.store ≡ ok frag
      → apply_mutation p pid seed reason now n ≡ (ok calls, n')
      → (new : Fragment) × (src : p.entropy.Source) × (rotate p frag pid seed n.source
          ≡ ok (new, src))
        × (replace_fragment p pid new now n.store src ≡ (ok n'.source, n'.store))
  unfolding apply_mutation
  apply_mutation_steps pid seed reason now n n' calls frag found run =
      elim (Result-cases (rotate p frag pid seed n.source)) [
        | inl (e, failed) ↦ cc (rw (apply_mutation, found, failed) at run)
        | inr ((new, src), rotated) ↦
            elim (Result-cases (replace_fragment p pid new now n.store src).0) [
              | inl (e, failed) ↦ cc (rw (apply_mutation, found, rotated, failed) at run)
              | inr (src', replaced) ↦ (
                new,
                src,
                rotated,
                let outcome = replace_fragment p pid new now n.store src in
                    let after : record n { store = outcome.1; source = src' } ≡ n' =
                      ap (λ (r : Result NodeError (List Call) × Node p.entropy.Source). r.1)
                        (rw (apply_mutation, found, rotated, replaced) at run) in
                    ap (λ r. (r, outcome.1)) replaced
                    ∙ ap (λ (m : Node p.entropy.Source). (ok m.source, m.store)) after,
              )
            ]
      ]

  -- Let a fragment that this node holds be mutated with success, the new pseudonym differ from the
  -- old one, and the fragment's members hold text. Then the node holds a fragment under the new
  -- pseudonym, of the same group and members, with the next epoch (modulo 2 ^ 64), that opens with
  -- its new key to what the old one opened to with the old key; and nothing is found under the old
  -- pseudonym any more.
  pub apply_mutation_lem :
      (pid seed reason : Bytes) (now : ℕ) (n n' : Node p.entropy.Source) (calls : List Call)
      (frag : Fragment)
      → get_fragment p.gcm p.codec pid n.store ≡ ok frag
      → AreText p.codec frag.members
      → next_pseudo_id p.kdf pid seed ≢ pid
      → apply_mutation p pid seed reason now n ≡ (ok calls, n')
      → (new : Fragment) × (get_fragment p.gcm p.codec (next_pseudo_id p.kdf pid seed) n'.store
          ≡ ok new)
        × Rotated frag new pid seed
        × (get_fragment p.gcm p.codec pid n'.store ≡ err not_found)
  apply_mutation_lem pid seed reason now n n' calls frag found text fresh run =
      let (new, src, rotated, replaced) =
        apply_mutation_steps pid seed reason now n n' calls frag found run in
      let facts = rotate_lem frag new pid seed n.source src rotated in
      let (s1, put, deleted) =
        replace_fragment_lem pid new now n.store n'.store src n'.source replaced in
      let at =
        λ (j : Bytes). get_fragment-delete_fragment p.gcm p.codec pid j s1 n'.store deleted in
      let stamped : Fragment = record new { updated_at = now } in
      let next = next_pseudo_id p.kdf pid seed in
      let put_back : get_fragment p.gcm p.codec next s1 ≡ ok stamped =
        ap (λ j. get_fragment p.gcm p.codec j s1) (sym facts.named)
        ∙ get_fragment-put_fragment p.gcm p.codec p.entropy new now n.store s1 src n'.source
            (subst (λ ms. AreText p.codec ms) (sym facts.members_kept) text) put in
      (
        stamped,
        at next
            ∙ ap (λ c. if c then err not_found else get_fragment p.gcm p.codec next s1)
                (bytes_eq-false pid next (λ same. fresh (sym same)))
            ∙ put_back,
        record {
          named = facts.named;
          counted = facts.counted;
          grouped = facts.grouped;
          members_kept = facts.members_kept;
          content = facts.content;
          before = facts.before;
          after = facts.after;
        },
        at pid
            ∙ ap (λ c. if c then err not_found else get_fragment p.gcm p.codec pid s1)
                (bytes_eq_refl pid),
      )
