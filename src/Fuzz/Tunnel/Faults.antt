-- ===== src/Fuzz/Tunnel/Faults.antt =====
-- When the two channels run out of their buffers: at an error of `read`, and at nothing else.
use fuzzing_rdma.Base.{
  ℕ, ◌-◌, ◌^◌, ◌≤◌, ◌≡◌, ◌↔◌, ◌⊎◌, inl, inr, refl, Option, none, some, List, [], ◌∷◌, length,
  length-zeros, fill_short, arith,
}
use fuzzing_rdma.Fuzz.Classify.{check_buffer_type}
use fuzzing_rdma.Fuzz.Tunnel.{
  max_eth_len, cleared, Read, error, frame, read, fuzz_buffer, server_run, client_step, client_run,
}
use fuzzing_rdma.Fuzz.Tunnel.Server.{server_step_frame, server_step_error}
use fuzzing_rdma.Fuzz.Tunnel.Client.{client_step_forwards}

-- A frame that is read fits the buffer.
abbrev pub Fits : Read → Type 0
Fits error = Unit {0}
Fits (frame xs) = length xs ≤ max_eth_len

abbrev pub AllReadsFit : List Read → Type 0
AllReadsFit [] = Unit {0}
AllReadsFit (rd ∷ rds) = Fits rd × AllReadsFit rds

-- One of the calls of `read` fails.
pub data HasError : List Read → Type 0 where
  here : {rds : List Read} → HasError (error ∷ rds)
  there : {rd : Read} {rds : List Read} → HasError rds → HasError (rd ∷ rds)

no_errors : ¬ HasError []
no_errors h = elim h [ ]

HasError-frame : {xs : List ℕ} {rds : List Read} → ¬ HasError rds → ¬ HasError (frame xs ∷ rds)
HasError-frame h (there k) = h k

-- A result that is missing exactly if `P` holds.
abbrev pub FaultsIf : {A : Type 0} → Type 0 → Option A → Type 0
FaultsIf {A} P o = (P × (o ≡ none)) ⊎ ((¬ P) × (a : A) × (o ≡ some a))

pub iff_of_FaultsIf : {A : Type 0} {P : Type 0} {o : Option A} → FaultsIf P o → (o ≡ none) ↔ P
iff_of_FaultsIf (inl (p, e)) = (λ f. p, λ q. e)
iff_of_FaultsIf (inr (n, a, e)) = (λ f. absurd (cc), λ q. absurd (n q))

pub server_run-FaultsIf :
    (rds : List Read) → AllReadsFit rds → FaultsIf (HasError rds) (server_run cleared rds)
unfolding server_run
server_run-FaultsIf [] h = inr (no_errors, (cleared, []), refl)
server_run-FaultsIf (error ∷ rds) h =
    inl (here, rw (server_step_error cleared (length-zeros max_eth_len)) refl)
server_run-FaultsIf (frame xs ∷ rds) h = elim (server_run-FaultsIf rds h.1) [
  | inl (k, e) ↦ inl (there k, rw (server_step_frame max_eth_len xs h.0, e) refl)
  | inr (n, (b, outs), e) ↦
      inr (HasError-frame n, (b, some xs ∷ outs), rw (server_step_frame max_eth_len xs h.0, e) refl)
]

module _ {R : Type 0} (rand : R → ℕ × R) where
  -- The classification of -1 bytes is `other`, and the `memset` runs beyond the buffer.
  client_step_error :
      (buffer : List ℕ) (r : R)
      → length buffer ≡ max_eth_len
      → client_step rand buffer r error ≡ none
  unfolding client_step read check_buffer_type fuzz_buffer
  client_step_error buffer r h = rw (fill_short buffer (2 ^ 64 - 1) 0 (omega arith)) refl

  client_run-FaultsIf :
      (buffer : List ℕ) (r : R) (rds : List Read)
      → length buffer ≡ max_eth_len
      → AllReadsFit rds
      → FaultsIf (HasError rds) (client_run rand buffer r rds)
  unfolding client_run
  client_run-FaultsIf buffer r [] hb h = inr (no_errors, (buffer, r, []), refl)
  client_run-FaultsIf buffer r (error ∷ rds) hb h =
      inl (here, rw (client_step_error buffer r hb) refl)
  client_run-FaultsIf buffer r (frame xs ∷ rds) hb h =
      let (b, out, r', e, l, m) = client_step_forwards rand buffer xs r hb h.0 in
      elim (client_run-FaultsIf b r' rds l h.1) [
        | inl (k, f) ↦ inl (there k, rw (e, f) refl)
        | inr (n, (b', r'', outs), f) ↦
            inr (HasError-frame n, (b', r'', some out ∷ outs), rw (e, f) refl)
      ]

  pub client_channel-FaultsIf :
      (r : R) (rds : List Read)
      → AllReadsFit rds
      → FaultsIf (HasError rds) (client_run rand cleared r rds)
  client_channel-FaultsIf r rds h = client_run-FaultsIf cleared r rds (length-zeros max_eth_len) h
