-- ===== src/Transport/Gsusb/Driver/Candidates.antt =====
-- src/transport/can_gsusb.rs: what `write_control_candidates` and `read_control_candidates` add to
-- the account of accepted control writes.
use mathlib.Core.List.{append-nil}
use cyphal_service.Common.{
  ℕ, ◌≡◌, refl, sym, ◌∙◌, List, [], ◌∷◌, ◌++◌, Result, ok, err, Option, none, some, Bool-cases, inl,
  inr, Result-cases, leb, length,
}
use cyphal_service.Transport.Gsusb.Usb.{UsbError, pipe, Usb, Account}
use cyphal_service.Transport.Gsusb.Driver.{
  Candidate, setup_of, is_pipe, write_from, write_control_candidates, read_from,
  read_control_candidates,
}
use cyphal_service.Transport.Gsusb.Driver.Growth.{Write, IsRequest, After, Grows, grows_quiet}

module _ {usb : Usb} (acc : Account usb) where
  -- One form is tried, and after a pipe error what comes next.
  write_form-Grows :
      (h : usb.Handle) (request : ℕ) (c : Candidate) (cs : List Candidate) (bytes : List ℕ)
      (last : Option UsbError)
      → Grows acc (write_from usb h request cs bytes (some pipe)) (IsRequest request bytes ∷ [])
      → Grows acc (write_from usb h request (c ∷ cs) bytes last) (IsRequest request bytes ∷ [])
  unfolding write_from
  write_form-Grows h request c cs bytes last later b =
      tried (usb.write_control h (setup_of request c) bytes b).0 refl
    where
      same :
          (e : UsbError)
          → (usb.write_control h (setup_of request c) bytes b).0 ≡ err e
          → acc.accepted b ≡ acc.accepted (usb.write_control h (setup_of request c) bytes b).1
      same e failed = sym (acc.write_err h (setup_of request c) bytes b e failed)

      tried :
          (r : Result ℕ UsbError)
          → (usb.write_control h (setup_of request c) bytes b).0 ≡ r
          → (ws : List Write) × (acc.accepted (write_from usb h request (c ∷ cs) bytes last b).1
              ≡ acc.accepted b ++ ws)
            × After
                (IsRequest request bytes ∷ [])
                ws
                (write_from usb h request (c ∷ cs) bytes last b).0
      tried (ok n) sent =
          rw (sent, write_from)
            (
              (setup_of request c, bytes) ∷ [],
              acc.write_ok h (setup_of request c) bytes b n sent,
              ((refl, refl), tt),
            )
      tried (err e) failed = elim (Bool-cases (is_pipe e)) [
        | inl again ↦ rw (failed, again, same e failed, write_from) (later _)
        | inr last ↦
            rw (failed, last, write_from)
              ([], sym (same e failed) ∙ sym (append-nil (acc.accepted b)), tt)
      ]

  -- At most one form of a request is accepted, and exactly one where the call succeeds.
  write_from-Grows :
      (h : usb.Handle) (request : ℕ) (cs : List Candidate) (bytes : List ℕ) (last : Option UsbError)
      → Grows acc (write_from usb h request cs bytes last) (IsRequest request bytes ∷ [])
  unfolding write_from
  write_from-Grows h request [] bytes last b = ([], sym (append-nil (acc.accepted b)), tt)
  write_from-Grows h request (c ∷ cs) bytes last b =
      write_form-Grows h request c cs bytes last (write_from-Grows h request cs bytes (some pipe)) b

  pub write_control_candidates-Grows :
      (h : usb.Handle) (request : ℕ) (cs : List Candidate) (bytes : List ℕ)
      → Grows acc (write_control_candidates usb h request cs bytes) (IsRequest request bytes ∷ [])
  unfolding write_control_candidates
  write_control_candidates-Grows h request cs bytes = write_from-Grows h request cs bytes none

  read_from-accepted :
      (h : usb.Handle) (request : ℕ) (cs : List Candidate) (n : ℕ) (last : Option UsbError)
      (b : usb.Bus)
      → acc.accepted (read_from usb h request cs n last b).1 ≡ acc.accepted b
  unfolding read_from
  read_from-accepted h request [] n last b = refl
  read_from-accepted h request (c ∷ cs) n last b =
      let r = usb.read_control h (setup_of request c) n b in
      let same = acc.after_read h (setup_of request c) n b in
      elim (Result-cases r.0) [
        | inl (bytes, got) ↦ elim (Bool-cases (leb n (length bytes))) [
          | inl whole ↦ rw (got, whole, read_from) same
          | inr short ↦ rw (got, short, read_from) same
        ]
        | inr (e, failed) ↦ elim (Bool-cases (is_pipe e)) [
          | inl again ↦
              rw (failed, again, read_from)
                (read_from-accepted h request cs n (some pipe) r.1 ∙ same)
          | inr last ↦ rw (failed, last, read_from) same
        ]
      ]

  pub read_control_candidates-Grows :
      (h : usb.Handle) (request : ℕ) (cs : List Candidate) (n : ℕ)
      → Grows acc (read_control_candidates usb h request cs n) []
  unfolding read_control_candidates
  read_control_candidates-Grows h request cs n =
      grows_quiet acc (read_control_candidates usb h request cs n)
        (read_from-accepted h request cs n none)
