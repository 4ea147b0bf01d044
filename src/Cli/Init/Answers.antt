-- ===== src/Cli/Init/Answers.antt =====
-- What the dialogue of `init` comes to, by the answers that it is given.
use ebbflow.Prelude.{
  List, [], ◌∷◌, subst, ℕ, zero, suc, ◌≡◌, refl, String, Bool, length, true, false, Option, none,
  some, Bool-cases, inl, inr,
}
use ebbflow.Prelude.Result.{ok, err}
use ebbflow.Config.{Ssh, ssh_new}
use ebbflow.Cli.Console.{Input, Outcome, done, endless, get_string, get_yn}
use ebbflow.Cli.Init.{
  Env, Polled, status_ok, status_accepted, status_not_found, status_other, not_sent,
  poll_key_creation, confirm_hostname, ask_round, ask_hostname, hostname_loop, choose_hostname,
  ask_ssh, used_name,
}

-- The answer to a request of the key is awaited until it carries the key.
pub data IsAwaited : List Polled → String → Type 0 where
  arrives : {key : String} {ps : List Polled} → IsAwaited (status_ok (ok key) ∷ ps) key
  accepted :
      {key : String} {ps : List Polled} → IsAwaited ps key → IsAwaited (status_accepted ∷ ps) key
  missing :
      {key : String} {ps : List Polled} → IsAwaited ps key → IsAwaited (status_not_found ∷ ps) key
  strange :
      {key : String} {ps : List Polled} (n : ℕ)
      → IsAwaited ps key
      → IsAwaited (status_other n ∷ ps) key
  unsent :
      {key : String} {ps : List Polled} (e : String)
      → IsAwaited ps key
      → IsAwaited (not_sent e ∷ ps) key

pub poll_key_creation-IsAwaited :
    (ps : List Polled) (key : String) → poll_key_creation ps ≡ some (ok key) → IsAwaited ps key
unfolding poll_key_creation
poll_key_creation-IsAwaited [] key h = cc h
poll_key_creation-IsAwaited (status_ok (ok k) ∷ ps) key h =
    subst (IsAwaited (status_ok (ok k) ∷ ps)) (cc h) arrives
poll_key_creation-IsAwaited (status_ok (err e) ∷ ps) key h = cc h
poll_key_creation-IsAwaited (status_accepted ∷ ps) key h =
    accepted (poll_key_creation-IsAwaited ps key h)
poll_key_creation-IsAwaited (status_not_found ∷ ps) key h =
    missing (poll_key_creation-IsAwaited ps key h)
poll_key_creation-IsAwaited (status_other n ∷ ps) key h =
    strange n (poll_key_creation-IsAwaited ps key h)
poll_key_creation-IsAwaited (not_sent e ∷ ps) key h =
    unsent e (poll_key_creation-IsAwaited ps key h)

module _ (env : Env) where
  -- A name that is one of a host, and that was confirmed; one that is not is asked for again.
  pub data IsNamed : Input → String → Input → Type 0 where
    wrong :
        {is is1 left : Input} {s name : String}
        → get_string env.text is ≡ done (ok s) is1
        → env.is_hostname s ≡ false
        → IsNamed is1 name left
        → IsNamed is name left
    unconfirmed :
        {is is1 is2 left : Input} {s name : String}
        → get_string env.text is ≡ done (ok s) is1
        → env.is_hostname s ≡ true
        → get_yn env.text is1 ≡ done (ok false) is2
        → IsNamed is2 name left
        → IsNamed is name left
    confirmed :
        {is is1 left : Input} {name : String}
        → get_string env.text is ≡ done (ok name) is1
        → env.is_hostname name ≡ true
        → get_yn env.text is1 ≡ done (ok true) left
        → IsNamed is name left

  abbrev wanted : Option String → Ssh
  wanted hostname = record {
    maxconns = 20;
    port = 22;
    enabled = true;
    maxidle = 5;
    hostname_override = hostname;
  }

  -- The settings of SSH and the name that the key is for, where `own` is the name of the host.
  pub data IsChosen (own : String) : Input → Option Ssh → String → Input → Type 0 where
    no_ssh :
        {is left : Input}
        → get_yn env.text is ≡ done (ok false) left
        → IsChosen own is none own left
    own_name :
        {is is1 left : Input}
        → get_yn env.text is ≡ done (ok true) is1
        → get_yn env.text is1 ≡ done (ok true) left
        → IsChosen own is (some (wanted none)) own left
    other_name :
        {is is1 is2 left : Input} {name : String}
        → get_yn env.text is ≡ done (ok true) is1
        → get_yn env.text is1 ≡ done (ok false) is2
        → IsNamed is2 name left
        → IsChosen own is (some (wanted (some name))) name left

  -- If the loop that asks for a name ends well, it ends with one.
  abbrev IsOnName : Input → Outcome String → Type 0
  IsOnName is (done (ok name) left) = IsNamed is name left
  IsOnName is _ = Unit {0}

  IsOnName-earlier :
      {is is' : Input}
      → ((name : String) (left : Input) → IsNamed is' name left → IsNamed is name left)
      → (o : Outcome String) → IsOnName is' o
      → IsOnName is o
  IsOnName-earlier f (done (ok name) left) h = f name left h
  IsOnName-earlier f (done (err e) left) h = tt
  IsOnName-earlier f endless h = tt

  module _ (fuel : ℕ) (again : (is : Input) → IsOnName is (ask_hostname env fuel is)) where
    round-confirm :
        (is is1 : Input) (s : String) (o : Outcome Bool)
        → get_string env.text is ≡ done (ok s) is1
        → env.is_hostname s ≡ true
        → get_yn env.text is1 ≡ o
        → IsOnName is (ask_hostname env (suc fuel) is)
    unfolding ask_hostname ask_round confirm_hostname
    round-confirm is is1 s endless g h y = rw (g, ask_hostname) (rw h (rw y tt))
    round-confirm is is1 s (done (err e) is2) g h y = rw (g, ask_hostname) (rw h (rw y tt))
    round-confirm is is1 s (done (ok true) is2) g h y =
        rw (g, ask_hostname) (rw h (rw y (confirmed g h y)))
    round-confirm is is1 s (done (ok false) is2) g h y =
        rw (g, ask_hostname)
          (rw h (
            rw y (
              IsOnName-earlier (λ name left r. unconfirmed g h y r) (ask_hostname env fuel is2)
                (again is2))))

    round-named :
        (is : Input) (o : Outcome String)
        → get_string env.text is ≡ o
        → IsOnName is (ask_hostname env (suc fuel) is)
    unfolding ask_hostname ask_round
    round-named is endless g = rw (g, ask_hostname) tt
    round-named is (done (err e) is1) g = rw (g, ask_hostname) tt
    round-named is (done (ok s) is1) g = elim (Bool-cases (env.is_hostname s)) [
      | inl good ↦ round-confirm is is1 s (get_yn env.text is1) g good refl
      | inr bad ↦
          rw (g, ask_hostname)
            (rw bad (
              IsOnName-earlier (λ name left r. wrong g bad r) (ask_hostname env fuel is1)
                (again is1)))
    ]

  ask_hostname-IsOnName : (fuel : ℕ) (is : Input) → IsOnName is (ask_hostname env fuel is)
  unfolding ask_hostname
  ask_hostname-IsOnName zero is = tt
  ask_hostname-IsOnName (suc fuel) is =
      round-named fuel (ask_hostname-IsOnName fuel) is (get_string env.text is) refl

  -- If the questions about SSH end well, they end with settings and a name that were chosen.
  abbrev pub IsSettled : String → Input → Outcome (Option Ssh) → Type 0
  IsSettled own is (done (ok ssh) left) = IsChosen own is ssh (used_name own ssh) left
  IsSettled own is _ = Unit {0}

  named-IsSettled :
      (own : String) (is is1 is2 : Input) (o : Outcome String)
      → get_yn env.text is ≡ done (ok true) is1
      → get_yn env.text is1 ≡ done (ok false) is2
      → hostname_loop env is2 ≡ o
      → IsOnName is2 o
      → IsSettled own is (ask_ssh env is)
  unfolding ask_ssh choose_hostname ssh_new used_name
  named-IsSettled own is is1 is2 endless y n l h = rw (y, ask_ssh) (rw n (rw l tt))
  named-IsSettled own is is1 is2 (done (err e) left) y n l h = rw (y, ask_ssh) (rw n (rw l tt))
  named-IsSettled own is is1 is2 (done (ok name) left) y n l h =
      rw (y, ask_ssh) (rw n (rw l (other_name y n h)))

  wanted-IsSettled :
      (own : String) (is is1 : Input) (o : Outcome Bool)
      → get_yn env.text is ≡ done (ok true) is1
      → get_yn env.text is1 ≡ o
      → IsSettled own is (ask_ssh env is)
  unfolding ask_ssh choose_hostname ssh_new used_name hostname_loop
  wanted-IsSettled own is is1 endless y n = rw (y, ask_ssh) (rw n tt)
  wanted-IsSettled own is is1 (done (err e) left) y n = rw (y, ask_ssh) (rw n tt)
  wanted-IsSettled own is is1 (done (ok true) left) y n = rw (y, ask_ssh) (rw n (own_name y n))
  wanted-IsSettled own is is1 (done (ok false) is2) y n =
      named-IsSettled own is is1 is2 (hostname_loop env is2) y n refl
        (ask_hostname-IsOnName (suc (length is2)) is2)

  asked-IsSettled :
      (own : String) (is : Input) (o : Outcome Bool)
      → get_yn env.text is ≡ o
      → IsSettled own is (ask_ssh env is)
  unfolding ask_ssh used_name
  asked-IsSettled own is endless y = rw (y, ask_ssh) tt
  asked-IsSettled own is (done (err e) left) y = rw (y, ask_ssh) tt
  asked-IsSettled own is (done (ok true) is1) y =
      wanted-IsSettled own is is1 (get_yn env.text is1) y refl
  asked-IsSettled own is (done (ok false) left) y = rw (y, ask_ssh) (no_ssh y)

  pub ask_ssh-IsSettled : (own : String) (is : Input) → IsSettled own is (ask_ssh env is)
  ask_ssh-IsSettled own is = asked-IsSettled own is (get_yn env.text is) refl
