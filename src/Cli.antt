-- ===== src/Cli.antt =====
-- daemon/fedoralink/cli.py: the commands, by their exit codes, on the daemon that `Bus.Calls`
-- models. What they print is left out, and a daemon that cannot be reached.
use fedoralink.Prelude.{
  ℕ, zero, suc, ◌≤◌, ◌≡◌, refl, ap, ◌∙◌, String, Bool, true, false, Option, List, [], ◌∷◌, length,
  ◌==◌, if◌then◌else◌, is_some, inl, inr, Bool-cases, arith,
}
use fedoralink.Transfers.{Result, ok, err}
use fedoralink.Transfers.Outgoing.{Outgoing, open_outgoing}
use fedoralink.Daemon.{World}
use fedoralink.Files.{Files}
use fedoralink.Files.Pump.{Found, no_file, unreadable, file, opened, send_found, send_file}
use fedoralink.Bus.Calls.{
  BondedDevice, Desk, Method, sends_file, Answer, boolean, nothing, unknown_method, number, devices,
  method_call,
}

-- an argument of `send`, resolved: no file, or a file, with what the daemon finds of it
pub data Target : Type 0 where
  not_a_file : Target
  target : String → String → Found → Target

-- `result.unpack()[0]`
abbrev pub is_offered : Answer → Bool
is_offered nothing = false
is_offered unknown_method = false
is_offered (boolean b) = b
is_offered (number _) = false
is_offered (devices _) = false

abbrev pub failed_if : Bool → ℕ × Desk → ℕ × Desk
failed_if true (n, k) = (n, k)
failed_if false (n, k) = (suc n, k)

module _ (bytes : String → ℕ) (lower : String → String) (service_uuid : String) (w : World)
    (objects : Option (List BondedDevice)) (sender : String) where
  -- the loop of `send`: the failures, and the daemon afterwards, if nothing else happens to it
  unfoldable pub send_each : List Target → Desk → ℕ × Desk
  unfolding method_call
  send_each [] k = (0, k)
  send_each (not_a_file ∷ more) k = failed_if false (send_each more k)
  send_each (target id name found ∷ more) k =
      let c = method_call bytes lower service_uuid w objects sender (sends_file id name found) k in
      failed_if (is_offered c.answer) (send_each more c.desk)

  -- `send`
  unfoldable pub send : List Target → Desk → ℕ × Desk
  unfolding send_each
  send targets k = let (failures, k') = send_each targets k in (if failures == 0 then 0 else 1, k')

  -- `cancel`, `devices`, `forget` and `ping`
  unfoldable pub plainly : Method → Desk → ℕ × Desk
  unfolding method_call
  plainly m k = (0, (method_call bytes lower service_uuid w objects sender m k).desk)

  taken_is_busy :
      (a : Bool) (id name : String) (found : Found) (f : Files)
      → (send_file a id name found f).0 ≡ true
      → is_some (send_file a id name found f).1.1.outgoing ≡ true
  unfolding send_file
  taken_is_busy false id name found f e = let z : false ≡ true = e in ground arith
  taken_is_busy true id name found f e = elim (Bool-cases (is_some f.outgoing)) [
    | inl b ↦ rw b b
    | inr b ↦ rw b (go found (rw b at e))
  ]
    where
      fresh :
          (r : Result Outgoing)
          → (opened name r f).0 ≡ true
          → is_some (opened name r f).1.1.outgoing ≡ true
      fresh (err x) q = let z : false ≡ true = q in ground arith
      fresh (ok t) q = refl

      go :
          (x : Found)
          → (send_found id name x f).0 ≡ true
          → is_some (send_found id name x f).1.1.outgoing ≡ true
      go no_file q = let z : false ≡ true = q in ground arith
      go unreadable q = let z : false ≡ true = q in ground arith
      go (file content) q = fresh (open_outgoing id content) q

  busy_refuses :
      (a : Bool) (id name : String) (found : Found) (f : Files)
      → is_some f.outgoing ≡ true
      → ((send_file a id name found f).0 ≡ false)
        × (is_some (send_file a id name found f).1.1.outgoing ≡ true)
  unfolding send_file
  busy_refuses false id name found f b = (refl, b)
  busy_refuses true id name found f b = rw b (refl, b)

  fail_lem : (b : Bool) (x : ℕ × Desk) → b ≡ false → (failed_if b x).0 ≡ suc x.0
  fail_lem false x e = refl
  fail_lem true x e = let z : true ≡ false = e in ground arith

  busy_fails :
      (targets : List Target) (k : Desk)
      → is_some k.files.outgoing ≡ true
      → (send_each targets k).0 ≡ length targets
  unfolding send_each method_call
  busy_fails [] k b = refl
  busy_fails (not_a_file ∷ more) k b = ap suc (busy_fails more k b)
  busy_fails (target id name found ∷ more) k b =
      let (refuses, still) = busy_refuses k.daemon.authenticated id name found k.files b in
      fail_lem _ _ refuses ∙ ap suc (busy_fails more _ still)

  offered_or_failed :
      (n : ℕ) (b : Bool) (x : ℕ × Desk)
      → (b ≡ true → x.0 ≡ n)
      → n ≤ suc x.0
      → suc n ≤ suc (failed_if b x).0
  offered_or_failed n true x busy h = let e = busy refl in omega (arith, e)
  offered_or_failed n false x busy h = omega arith

  -- of the files, at most one is offered
  length-send_each :
      (targets : List Target) (k : Desk) → length targets ≤ suc (send_each targets k).0
  unfolding send_each method_call
  length-send_each [] k = omega arith
  length-send_each (not_a_file ∷ more) k = let l = length-send_each more k in omega arith
  length-send_each (target id name found ∷ more) k =
      offered_or_failed (length more) (send_file k.daemon.authenticated id name found k.files).0 _
        (λ e. busy_fails more _ (taken_is_busy k.daemon.authenticated id name found k.files e))
        (length-send_each more _)

  -- `send` with two files or more ends with the exit code of a failure, whatever the files are and
  -- whatever state the daemon is in, if nothing else happens to the daemon between the calls.
  pub send_several : (a b : Target) (more : List Target) (k : Desk) → (send (a ∷ b ∷ more) k).0 ≡ 1
  unfolding send
  send_several a b more k = go (send_each (a ∷ b ∷ more) k).0 (length-send_each (a ∷ b ∷ more) k)
    where
      code : ℕ → ℕ
      code n = if n == 0 then 0 else 1

      go : (n : ℕ) → suc (suc (length more)) ≤ suc n → code n ≡ 1
      go zero h = absurd (omega arith)
      go (suc n) h = grind arith
