-- ===== src/Transport/Gsusb/Driver/Growth.antt =====
-- src/transport/can_gsusb.rs: how calls of the driver extend the account of control writes that the
-- device accepted. A list of predicates says which writes there are when all goes well; when it
-- does not, the device has not been told to start.
use mathlib.Core.List.{append-nil, append_assoc}
use cyphal_service.Common.{ℕ, ◌≡◌, refl, sym, ◌∙◌, ap, List, [], ◌∷◌, ◌++◌, All, Result, ok, err}
use cyphal_service.Common.Action.{Action, follow, with_error, ◌>>=◌, map_err}
use cyphal_service.Transport.Gsusb.Usb.{Setup, Usb, Account}
use cyphal_service.Transport.Gsusb.Driver.Requests.{set_mode_request, mode_bytes, mode_start}

-- A control write: its fields and its data.
abbrev pub Write : Type 0
Write = Setup × List ℕ

-- The write of a request with this data, in whichever form.
abbrev pub IsRequest : ℕ → List ℕ → Write → Type 0
IsRequest request bytes w = (w.0.request ≡ request) × (w.1 ≡ bytes)

-- The write that starts the device.
abbrev pub IsStart : Write → Type 0
IsStart = IsRequest set_mode_request (mode_bytes mode_start)

-- Each write is as the predicate at its place says, and there are no others.
abbrev pub Conforms : List (Write → Type 0) → List Write → Type 0
Conforms [] [] = Unit {0}
Conforms [] (w ∷ ws) = ⊥
Conforms (p ∷ ps) [] = ⊥
Conforms (p ∷ ps) (w ∷ ws) = p w × Conforms ps ws

abbrev pub NotStarted : List Write → Type 0
NotStarted = All (λ w. ¬ IsStart w)

abbrev pub After : {E A : Type 0} → List (Write → Type 0) → List Write → Result A E → Type 0
After ps ws (ok a) = Conforms ps ws
After ps ws (err e) = NotStarted ws

pub NotStarted-append : (ws vs : List Write) → NotStarted ws → NotStarted vs → NotStarted (ws ++ vs)
NotStarted-append [] vs h k = k
NotStarted-append (w ∷ ws) vs h k = (h.0, NotStarted-append ws vs h.1 k)

Conforms-append :
    (ps qs : List (Write → Type 0)) (ws vs : List Write)
    → Conforms ps ws
    → Conforms qs vs
    → Conforms (ps ++ qs) (ws ++ vs)
Conforms-append [] qs [] vs h k = k
Conforms-append [] qs (w ∷ ws) vs h k = elim h [ ]
Conforms-append (p ∷ ps) qs [] vs h k = elim h [ ]
Conforms-append (p ∷ ps) qs (w ∷ ws) vs h k = (h.0, Conforms-append ps qs ws vs h.1 k)

-- None of the predicates lets the device be started.
abbrev pub NoStart : List (Write → Type 0) → Type 0
NoStart ps = (ws : List Write) → Conforms ps ws → NotStarted ws

pub NoStart-none : NoStart []
NoStart-none [] c = tt
NoStart-none (w ∷ ws) c = elim c [ ]

pub NoStart-one : (p : Write → Type 0) → ((w : Write) → p w → ¬ IsStart w) → NoStart (p ∷ [])
NoStart-one p h [] c = elim c [ ]
NoStart-one p h (w ∷ []) c = (h w c.0, tt)
NoStart-one p h (w ∷ v ∷ ws) c = elim c.1 [ ]

module _ {usb : Usb} (acc : Account usb) where
  abbrev pub Grows : {E A : Type 0} → Action usb.Bus E A → List (Write → Type 0) → Type 0
  Grows {E} {A} m ps =
      (b : usb.Bus)
      → (ws : List Write) × (acc.accepted (m b).1 ≡ acc.accepted b ++ ws) × After ps ws (m b).0

  -- A call that writes nothing.
  pub grows_quiet :
      {E A : Type 0} (m : Action usb.Bus E A)
      → ((b : usb.Bus) → acc.accepted (m b).1 ≡ acc.accepted b)
      → Grows m []
  grows_quiet m h b = ([], h b ∙ sym (append-nil (acc.accepted b)), quiet (m b).0)
    where
      quiet : {E A : Type 0} (r : Result A E) → After [] [] r
      quiet (ok a) = tt
      quiet (err e) = tt

  pub grows_bind :
      {E A B : Type 0} (m : Action usb.Bus E A) (f : A → Action usb.Bus E B)
      (ps qs : List (Write → Type 0))
      → NoStart ps
      → Grows m ps
      → ((a : A) (b : usb.Bus) → (m b).0 ≡ ok a → Grows (f a) qs)
      → Grows (m >>= f) (ps ++ qs)
  grows_bind {E} {A} {B} m f ps qs quiet h k b = next (h b).0 (m b).0 refl ((h b).1, (h b).2)
    where
      next :
          (ws : List Write) (r : Result A E)
          → (m b).0 ≡ r
          → (acc.accepted (m b).1 ≡ acc.accepted b ++ ws) × After ps ws r
          → (vs : List Write) × (acc.accepted (follow f r (m b).1).1 ≡ acc.accepted b ++ vs)
            × After (ps ++ qs) vs (follow f r (m b).1).0
      next ws (err e) at (same, after) = (ws, same, after)
      next ws (ok a) at (same, after) =
          let g = k a b at (m b).1 in
          (
            ws ++ g.0,
            g.1 ∙ ap (λ t. t ++ g.0) same ∙ append_assoc (acc.accepted b) ws g.0,
            both ws g.0 (f a (m b).1).0 after g.2,
          )
        where
          both :
              (ws vs : List Write) (r : Result B E)
              → Conforms ps ws
              → After qs vs r
              → After (ps ++ qs) (ws ++ vs) r
          both ws vs (ok b) c k = Conforms-append ps qs ws vs c k
          both ws vs (err e) c k = NotStarted-append ws vs (quiet ws c) k

  -- The rules for a call that writes nothing, and for one that does not start the device.
  pub quietly :
      {E A B : Type 0} {m : Action usb.Bus E A} (f : A → Action usb.Bus E B)
      (qs : List (Write → Type 0))
      → Grows m []
      → ((a : A) (b : usb.Bus) → (m b).0 ≡ ok a → Grows (f a) qs)
      → Grows (m >>= f) qs
  quietly {m = m} f qs h k = grows_bind m f [] qs NoStart-none h k

  pub telling :
      {E A B : Type 0} {m : Action usb.Bus E A} (f : A → Action usb.Bus E B) (p : Write → Type 0)
      (qs : List (Write → Type 0))
      → ((w : Write) → p w → ¬ IsStart w)
      → Grows m (p ∷ [])
      → ((a : A) (b : usb.Bus) → (m b).0 ≡ ok a → Grows (f a) qs)
      → Grows (m >>= f) (p ∷ qs)
  telling {m = m} f p qs q h k = grows_bind m f (p ∷ []) qs (NoStart-one p q) h k

  pub grows_map_err :
      {E F A : Type 0} (f : E → F) (m : Action usb.Bus E A) (ps : List (Write → Type 0))
      → Grows m ps
      → Grows (map_err f m) ps
  grows_map_err {E} {F} {A} f m ps h b = ((h b).0, (h b).1, relabelled (h b).0 (m b).0 (h b).2)
    where
      relabelled : (ws : List Write) (r : Result A E) → After ps ws r → After ps ws (with_error f r)
      relabelled ws (ok a) k = k
      relabelled ws (err e) k = k
