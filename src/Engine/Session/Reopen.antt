-- ===== src/Engine/Session/Reopen.antt =====
-- Closing and opening again.
use daichod.Base.{
  ◌&&◌, not, refl, ◌∙◌, subst, sym, Bool, false, sym, subst, not, ◌∙◌, false, Bool, ap, ◌≡◌, true,
  Option, none, List, [], ◌∷◌, arith, if◌then◌else◌,
}
use daichod.Exec.{ok}
use daichod.Rpc.Error.{Exception}
use daichod.Uri.{has_supported_scheme}
use daichod.Engine.Session.{
  Result, constructed, Bytes, Session, Answers, Answer, Call, opens, closes, play, open_session,
  close_session, is_no_err, is_locked, no_err, book,
}

-- The flag and the session object go with session_, and so does the engine's lock, which a read-only session does not take.
pub record IsConsistent (s : Session) : Type 0 where
  pub flag_agrees : s.open_flag ≡ s.session
  pub lock_agrees : s.holds_lock ≡ s.session && not s.read_only
  pub one_object : s.live_sessions ≡ (if s.session then 1 else 0)

pub open_session-IsConsistent :
    (a : Answers) (s : Session) → IsConsistent s → IsConsistent (open_session a s).1
unfolding open_session
open_session-IsConsistent a s c = ground (arith, c)

pub close_session-IsConsistent :
    (f : Option Exception) (save : Answer) (s : Session)
    → IsConsistent s
    → IsConsistent (close_session f save s).1
unfolding close_session
close_session-IsConsistent f save s c = ground (arith, c)

-- From a consistent session, whatever calls are made and whatever the engine answers, Open's failing paths included: is_open()
-- agrees with whether there is a session, there is one session object of the engine if there is and none otherwise, and the
-- engine's lock is held exactly while there is a session that is not read-only.
pub play-IsConsistent :
    (calls : List Call) (s : Session) → IsConsistent s → IsConsistent (play calls s)
unfolding play
play-IsConsistent [] s c = c
play-IsConsistent (opens a ∷ calls) s c =
    play-IsConsistent calls (open_session a s).1 (open_session-IsConsistent a s c)
play-IsConsistent (closes f save ∷ calls) s c =
    play-IsConsistent calls (close_session f save s).1 (close_session-IsConsistent f save s c)

-- No call changes what the session was made with.
open_session-configuration :
    (a : Answers) (s : Session)
    → ((open_session a s).1.book_uri ≡ s.book_uri) × ((open_session a s).1.read_only ≡ s.read_only)
unfolding open_session
open_session-configuration a s = ground arith

close_session-configuration :
    (f : Option Exception) (save : Answer) (s : Session)
    → ((close_session f save s).1.book_uri ≡ s.book_uri)
      × ((close_session f save s).1.read_only ≡ s.read_only)
unfolding close_session
close_session-configuration f save s = ground arith

play-configuration :
    (calls : List Call) (s : Session)
    → ((play calls s).book_uri ≡ s.book_uri) × ((play calls s).read_only ≡ s.read_only)
unfolding play
play-configuration [] s = (refl, refl)
play-configuration (opens a ∷ calls) s =
    let rest = play-configuration calls (open_session a s).1 in
    let this = open_session-configuration a s in (rest.0 ∙ this.0, rest.1 ∙ this.1)
play-configuration (closes f save ∷ calls) s =
    let rest = play-configuration calls (close_session f save s).1 in
    let this = close_session-configuration f save s in (rest.0 ∙ this.0, rest.1 ∙ this.1)

same_session :
    (s t : Session)
    → s.book_uri ≡ t.book_uri
    → s.read_only ≡ t.read_only
    → s.session ≡ t.session
    → s.open_flag ≡ t.open_flag
    → s.live_sessions ≡ t.live_sessions
    → s.holds_lock ≡ t.holds_lock
    → s ≡ t
same_session s t uri mode there flag objects lock = λ i. record {
  book_uri = uri i;
  read_only = mode i;
  session = there i;
  open_flag = flag i;
  live_sessions = objects i;
  holds_lock = lock i;
}

close_session-none :
    (f : Option Exception) (save : Answer) (s : Session)
    → IsConsistent s
    → let t = (close_session f save s).1 in
      (t.session ≡ false) × (t.open_flag ≡ false) × (t.live_sessions ≡ 0) × (t.holds_lock ≡ false)
unfolding close_session
close_session-none f save s c = ground (arith, c)

constructed-IsConsistent : (uri : Bytes) (mode : Bool) → IsConsistent (constructed uri mode)
constructed-IsConsistent uri mode = record {
  flag_agrees = refl;
  lock_agrees = refl;
  one_object = refl;
}

-- A first Open of a book that the engine begins and loads.
abbrev IsOpened : Bool → Result (Unit {0}) × Session → Type 0
IsOpened mode p =
    (p.0 ≡ ok tt) × (book p.1 ≡ none) × (p.1.holds_lock ≡ not mode) × (p.1.live_sessions ≡ 1)

first_open :
    (uri : Bytes) (mode : Bool) (a : Answers)
    → has_supported_scheme uri ≡ true
    → a.begin.error ≡ no_err
    → a.load.error ≡ no_err
    → IsOpened mode (open_session a (constructed uri mode))
unfolding open_session book
first_open uri mode a h b l = ground (arith, h, ap is_no_err b, ap is_no_err l, ap is_locked b)

-- After any calls of a new session, whatever the engine answered, a Close, even one whose save fails, leaves the session as it
-- was made, in all its fields; and an Open after it, of a supported book that the engine begins and loads, returns with
-- the book there, the engine's lock held exactly if the session is not read-only, and one session object.
pub open_session-close_session :
    (uri : Bytes) (mode : Bool) (calls : List Call) (f : Option Exception) (save : Answer)
    (a : Answers)
    → has_supported_scheme uri ≡ true
    → a.begin.error ≡ no_err
    → a.load.error ≡ no_err
    → let closed = (close_session f save (play calls (constructed uri mode))).1 in
      let again = open_session a closed in
      (closed ≡ constructed uri mode)
      × (again.0 ≡ ok tt)
      × (book again.1 ≡ none)
      × (again.1.holds_lock ≡ not mode)
      × (again.1.live_sessions ≡ 1)
open_session-close_session uri mode calls f save a h b l =
    let s = play calls (constructed uri mode) in
    let kept = play-configuration calls (constructed uri mode) in
    let this = close_session-configuration f save s in
    let left =
      close_session-none f save s
        (play-IsConsistent calls (constructed uri mode) (constructed-IsConsistent uri mode)) in
    let anew =
      same_session (close_session f save s).1 (constructed uri mode) (this.0 ∙ kept.0)
        (this.1 ∙ kept.1) left.0 left.1 left.2 left.3 in
    let again : IsOpened mode (open_session a (close_session f save s).1) =
      subst (IsOpened mode) (ap (open_session a) (sym anew)) (first_open uri mode a h b l) in
    (anew, again.0, again.1, again.2, again.3)
