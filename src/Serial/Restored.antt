-- ===== src/Serial/Restored.antt =====
-- What Include/com/Source/linux_serial.cpp keeps of a port between `SerialOpen` and `SerialClose`.
use hzrobot.Prelude.{
  ℕ, zero, suc, false, Option, some, none, List, [], ◌∷◌, ◌++◌, get_elem?, All, subst, ap, ◌≡◌, ◌≢◌,
  ◌⊎◌, inl, inr, refl, sym, ◌∙◌, ℕ_discrete, ℤ, pos,
}
use hzrobot.Serial.{
  Port, Termios, closes, sets, Serial, start_settings, serial_ok, serial_error_open, put_at, log,
  guard_fd, opened_port, open_entry, serial_open, serial_close,
}
use hzrobot.Serial.Control.{Use, use_port, use_ports}
use hzrobot.Serial.Entries.{
  is_shuts, Step, rests, logged, set_up, opened_at, closed_at, Leaves, use_port-Steps,
  use_ports-keeps,
}

some_inj : {A : Type 0} {x y : A} → some x ≡ some y → x ≡ y
some_inj e = cc

pub get_elem?-put_at :
    {A : Type 0} (i : ℕ) (x y : A) (xs : List A)
    → get_elem? xs i ≡ some y
    → get_elem? (put_at i x xs) i ≡ some x
unfolding put_at
get_elem?-put_at i x y [] h = cc
get_elem?-put_at zero x y (z ∷ zs) h = refl
get_elem?-put_at (suc i) x y (z ∷ zs) h = get_elem?-put_at i x y zs h

get_elem?-put_at_other :
    {A : Type 0} (i j : ℕ) (x : A) (xs : List A)
    → i ≢ j
    → get_elem? (put_at j x xs) i ≡ get_elem? xs i
unfolding put_at
get_elem?-put_at_other i j x [] h = refl
get_elem?-put_at_other zero zero x (z ∷ zs) h = absurd (h refl)
get_elem?-put_at_other (suc i) zero x (z ∷ zs) h = refl
get_elem?-put_at_other zero (suc j) x (z ∷ zs) h = refl
get_elem?-put_at_other (suc i) (suc j) x (z ∷ zs) h =
    get_elem?-put_at_other i j x zs (λ e. h (ap suc e))

-- The port is open, with the descriptor and the saved settings.
abbrev pub Holds : ℕ → ℕ → Termios → Serial → Type 0
Holds port fd t s =
    (new : Termios) × (get_elem? s.ports port
      ≡ some (record { fd = some fd; oldtio = t; newtio = new }))

-- A call that does not close the port.
abbrev pub LeavesOpen : ℕ → ℕ × Use → Type 0
LeavesOpen port (other, u) = (port ≢ other) ⊎ (is_shuts u ≡ false)

module _ (port fd : ℕ) (t : Termios) where
  Step-Holds_same :
      (u : Use) (s s' : Serial)
      → is_shuts u ≡ false
      → Step port u s s'
      → Holds port fd t s
      → Holds port fd t s'
  unfolding log
  Step-Holds_same u s _ leaves rests h = h
  Step-Holds_same u s _ leaves (logged calls neutral) h = h
  Step-Holds_same u s _ leaves (set_up entry settings calls neutral found) (new, h) =
      let is_same : record { fd = some fd; oldtio = t; newtio = new } ≡ entry = cc in
      (
        settings,
        get_elem?-put_at port _ entry s.ports found
            ∙ ap (λ (e : Port). some (record e { newtio = settings })) (sym is_same),
      )
  Step-Holds_same u s _ leaves (opened_at entry new_fd old found is_closed) (new, h) =
      let is_same : record { fd = some fd; oldtio = t; newtio = new } ≡ entry = cc in
      let impossible : some fd ≡ none = ap (λ (e : Port). e.fd) is_same ∙ is_closed in cc
  Step-Holds_same u s _ leaves (closed_at entry old_fd found is_open is_close) h = cc

  Step-Holds_other :
      (other : ℕ) (u : Use) (s s' : Serial)
      → port ≢ other
      → Step other u s s'
      → Holds port fd t s
      → Holds port fd t s'
  unfolding log
  Step-Holds_other other u s _ differs rests h = h
  Step-Holds_other other u s _ differs (logged calls neutral) h = h
  Step-Holds_other other u s _ differs (set_up entry settings calls neutral found) (new, h) =
      (new, get_elem?-put_at_other port other _ s.ports differs ∙ h)
  Step-Holds_other other u s _ differs (opened_at entry new_fd old found is_closed) (new, h) =
      (new, get_elem?-put_at_other port other _ s.ports differs ∙ h)
  Step-Holds_other other u s _ differs (closed_at entry old_fd found is_open is_close) (new, h) =
      (new, get_elem?-put_at_other port other _ s.ports differs ∙ h)

  Step-Holds :
      (other : ℕ) (u : Use) (s s' : Serial)
      → LeavesOpen port (other, u)
      → Step other u s s'
      → Holds port fd t s
      → Holds port fd t s'
  Step-Holds other u s s' (inl differs) step h = Step-Holds_other other u s s' differs step h
  Step-Holds other u s s' (inr leaves) step h = elim (ℕ_discrete port other) [
    | no differs ↦ Step-Holds_other other u s s' differs step h
    | yes same ↦ Step-Holds_same u s s' leaves (subst (λ (q : ℕ). Step q u s s') (sym same) step) h
  ]

  Leaves-Holds :
      (other : ℕ) (u : Use) (s : Serial) (after : Option (ℤ × Serial))
      → LeavesOpen port (other, u)
      → Holds port fd t s
      → Leaves (Step other u s) after
      → Leaves (Holds port fd t) after
  Leaves-Holds other u s none leaves h step = tt
  Leaves-Holds other u s (some (result, s')) leaves h step = Step-Holds other u s s' leaves step h

  held_by-Holds :
      (before : Option ℕ) (entry : Port) (s s' : Serial)
      → get_elem? s.ports port ≡ some entry
      → elim before [
        | none ↦ opened_port port (some fd) (some t) entry s
        | some old_fd ↦ (serial_error_open, s)
      ]
        ≡ (pos fd, s')
      → Holds port fd t s'
  unfolding opened_port log
  held_by-Holds none entry s s' found is_opened =
      let after : (opened_port port (some fd) (some t) entry s).1 ≡ s' =
        ap (λ (r : ℤ × Serial). r.1) is_opened in
      subst (Holds port fd t) after (start_settings, get_elem?-put_at port _ entry s.ports found)
  held_by-Holds (some old_fd) entry s s' found is_opened =
      let differ : serial_error_open ≡ pos fd = ap (λ (r : ℤ × Serial). r.0) is_opened in cc

  serial_open-Holds :
      (found : Option Port) (s s' : Serial)
      → get_elem? s.ports port ≡ found
      → open_entry port (some fd) (some t) found s ≡ some (pos fd, s')
      → Holds port fd t s'
  unfolding open_entry
  serial_open-Holds none s s' found_at is_opened = cc
  serial_open-Holds (some entry) s s' found_at is_opened =
      held_by-Holds entry.fd entry s s' found_at (some_inj is_opened)

  -- `SerialClose` on a port returns 0, makes the settings that `tcgetattr` gave when the port was
  -- opened those of the line again, and then closes the descriptor, so that the table has the port
  -- as closed, after any calls of the functions on the ports of which none closes this port or
  -- leaves an array.
  pub serial_close-restores :
      (uses : List (ℕ × Use)) (s s1 s2 : Serial)
      → serial_open port (some fd) (some t) s ≡ some (pos fd, s1)
      → All (LeavesOpen port) uses
      → use_ports uses s1 ≡ some s2
      → (s3 : Serial) × (serial_close port s2 ≡ some (serial_ok, s3))
        × (s3.calls ≡ s2.calls ++ sets fd t ∷ closes fd ∷ [])
        × ((entry : Port) × (get_elem? s3.ports port ≡ some entry) × (entry.fd ≡ none))
  unfolding serial_open serial_close guard_fd log
  serial_close-restores uses s s1 s2 is_opened leaves done =
      let (new, found) =
        use_ports-keeps (Holds port fd t) (LeavesOpen port)
          (λ q u s a h. Leaves-Holds q u s (use_port q u s) a h (use_port-Steps q u s)) uses s1 s2
          leaves (serial_open-Holds _ s s1 refl is_opened) done in
      rw found (_, refl, refl, (_, get_elem?-put_at port _ _ s2.ports found, refl))
