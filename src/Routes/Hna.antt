-- ===== src/Routes/Hna.antt =====
-- `update_routes` on the announced hosts: what the inverted comparison and the freed buffer do.
use batman_adv_userspace.Base.{
  ℕ, ◌≡◌, refl, ◌∙◌, sym, List, [], ◌∷◌, none, some, true, false, ◌⊎◌, inl, inr, arith, Bool-cases,
  Option-cases, take, bytes_eq, bytes_eq_refl, ◌==◌,
}
use batman_adv_userspace.TransTable.{hna_del_buff, hna_remove_list}
use batman_adv_userspace.Mesh.{
  OrigNode, HnaBuff, Mesh, M, at, put, orig_at, store_orig, ◌>>=◌, ◌>>◌, lift,
}
use batman_adv_userspace.Routes.Defs.{
  RecvBuff, recv_bytes, announce, hna_differs, recv_is_null, own_is_null, update_hna,
}

-- A packet that announces as many bytes as the originator's buffer holds, but other bytes, changes
-- nothing.
pub update_hna-ignores :
    (h : Mesh) (p len : ℕ) (o : OrigNode) (old bytes : List ℕ)
    → at p h.origs ≡ some o
    → o.hna_buff ≡ HnaBuff.live old
    → o.hna_buff_len ≡ len
    → bytes_eq (take len bytes) (take len old) ≡ false
    → update_hna p (RecvBuff.packet bytes) len h ≡ some (tt, h)
unfolding update_hna orig_at hna_differs recv_is_null own_is_null recv_bytes
update_hna-ignores h p len o old bytes found live same differ =
    let len_same : (len == o.hna_buff_len) ≡ true = ground arith in
    rw (update_hna, ◌>>=◌, orig_at, found, live, hna_differs, len_same, differ) refl

at-put :
    {A : Type 0} (p : ℕ) (a b : A) (heap : List (ℕ × A))
    → at p heap ≡ some b
    → at p (put p a heap) ≡ some a
unfolding at put
at-put p a b [] h = cc
at-put p a b ((q, c) ∷ r) h = elim (Bool-cases (q == p)) [
  | inl e ↦ rw (e, e)
  | inr e ↦ rw (e, e) (at-put p a b r (sym (rw e refl) ∙ h))
]

-- Once the originator's buffer is not there, it cannot be announced.
gone-announce :
    (h : Mesh) (p len : ℕ) (o : OrigNode)
    → recv_bytes RecvBuff.own o.hna_buff ≡ none
    → (store_orig p o >> announce p RecvBuff.own len) h ≡ none
unfolding store_orig announce orig_at
gone-announce h p len o gone = elim (Option-cases (at p h.origs)) [
  | inl e ↦ rw (◌>>◌, ◌>>=◌, store_orig, e) refl
  | inr (b, e) ↦
      rw (◌>>◌, ◌>>=◌, store_orig, e, announce, orig_at, at-put p o b h.origs e, gone) refl
]

-- A run that faults wherever it goes on.
bind-none :
    {A B : Type 0} (m : M A) (k : A → M B) (h : Mesh)
    → ((a : A) (h' : Mesh) → k a h' ≡ none)
    → (m >>= k) h ≡ none
bind-none m k h f = elim (Option-cases (m h)) [
  | inl e ↦ rw (◌>>=◌, e) refl
  | inr ((a, h'), e) ↦ rw (◌>>=◌, e) (f a h')
]

bind_assoc :
    {A B C : Type 0} (m : M A) (f : A → M B) (g : B → M C) (h : Mesh)
    → ((m >>= f) >>= g) h ≡ (m >>= λ a. f a >>= g) h
bind_assoc m f g h = elim (Option-cases (m h)) [
  | inl e ↦ rw (◌>>=◌, e) refl
  | inr (a, e) ↦ rw (◌>>=◌, e) refl
]

HnaBuff-cases :
    (b : HnaBuff)
    → (b ≡ HnaBuff.null) ⊎ ((b ≡ HnaBuff.freed) ⊎ ((bytes : List ℕ) × (b ≡ HnaBuff.live bytes)))
HnaBuff-cases HnaBuff.null = inl refl
HnaBuff-cases HnaBuff.freed = inr (inl refl)
HnaBuff-cases (HnaBuff.live bytes) = inr (inr (bytes, refl))

-- The last step of `hna_del_buff`.
after_del :
    (p len : ℕ) (o : OrigNode) (h : Mesh)
    → ((elim o.hna_buff [
      | HnaBuff.freed ↦ lift none
      | HnaBuff.null ↦ store_orig p (record o { hna_buff_len = 0 })
      | HnaBuff.live _ ↦ store_orig p (record o { hna_buff = HnaBuff.freed; hna_buff_len = 0 })
    ])
          >> announce p RecvBuff.own len)
        h
      ≡ none
unfolding recv_bytes
after_del p len o h = elim (HnaBuff-cases o.hna_buff) [
  | inl e ↦ rw e (gone-announce h p len (record o { hna_buff_len = 0 }) (rw e))
  | inr (inl e) ↦ rw e refl
  | inr (inr (bytes, e)) ↦
      rw e (gone-announce h p len (record o { hna_buff = HnaBuff.freed; hna_buff_len = 0 }) refl)
]

-- `hna_del_buff` leaves no buffer that could be announced.
del_buff-announce :
    (h : Mesh) (p len : ℕ) → (hna_del_buff p >> announce p RecvBuff.own len) h ≡ none
unfolding hna_del_buff recv_bytes
del_buff-announce h p len =
    bind_assoc (orig_at p) _ _ h
    ∙ bind-none (orig_at p) _ h λ o h1.
      bind_assoc (hna_remove_list o.hna_list) _ _ h1
      ∙ bind-none (hna_remove_list o.hna_list) _ h1 λ _ h2.
        bind_assoc (orig_at p) _ _ h2 ∙ bind-none (orig_at p) _ h2 λ o' h3. after_del p len o' h3

-- An originator's own buffer, as `purge_orig` passes it where a neighbour timed out, is freed before it
-- is copied: from every state in which the originator has a buffer this faults.
pub update_hna-own-faults :
    (h : Mesh) (p : ℕ) (o : OrigNode) (old : List ℕ)
    → at p h.origs ≡ some o
    → o.hna_buff ≡ HnaBuff.live old
    → update_hna p RecvBuff.own o.hna_buff_len h ≡ none
unfolding update_hna orig_at hna_differs recv_is_null own_is_null recv_bytes
update_hna-own-faults h p o old found live =
    let len_same : (o.hna_buff_len == o.hna_buff_len) ≡ true = ground arith in
    rw
      (
        update_hna,
        ◌>>=◌,
        orig_at,
        found,
        live,
        hna_differs,
        len_same,
        live,
        bytes_eq_refl (take o.hna_buff_len old),
      )
      (del_buff-announce h p o.hna_buff_len)
