-- ===== src/Tests/Daemon.antt =====
-- The engine worker and the texts of a book, at concrete inputs.
use daichod.Base.{◌==◌, if◌then◌else◌, ◌↔◌, length, ℕ, ◌≡◌, refl, true, some, [], ◌∷◌, ◌++◌}
use daichod.Base.Text.{Bytes}
use daichod.Engine.Worker.{
  Worker, start, enqueue, begin_drain, loop_step, Reach, started, later, enqueues, drains, loops,
}
use daichod.Engine.Worker.Order.{Inv, Reach-Inv}
use daichod.Engine.Worker.Draining.{work_left, run_sections, drain_completes}
use daichod.Rpc.Mutation.{is_uuid, is_xdigit}
use daichod.Rpc.Mutation.Uuid.{is_dash_position, get_elem?, is_uuid_iff}
use daichod.Uri.{redact_uri}
use daichod.Uri.Credentials.{with_scheme, redact_uri-with_scheme}

-- Two tasks come, the thread takes the first, and the daemon drains.
abbrev busy : Worker ℕ
busy = begin_drain (loop_step (enqueue 8 (enqueue 7 (start 2)).1).1)

abbrev busy-Reach : Reach 2 busy
busy-Reach = later (later (later (later started (enqueues 7)) (enqueues 8)) loops) drains

Reach-Inv_example : Inv 2 busy
Reach-Inv_example = Reach-Inv busy-Reach

busy_is_told : busy.stopping ≡ true
unfolding begin_drain loop_step enqueue start
busy_is_told = refl

drain_completes_example :
    let end = run_sections (work_left busy) busy in
    (end.exited ≡ true) × (end.queue ≡ []) × (end.executed ≡ busy.accepted)
drain_completes_example = drain_completes busy-Reach busy_is_told

abbrev postgres : Bytes
postgres = b'p' ∷ b'g' ∷ []

abbrev user : Bytes
user = b'm' ∷ b'e' ∷ []

abbrev password : Bytes
password = b'x' ∷ b':' ∷ b'y' ∷ []

abbrev host : Bytes
host = b'h' ∷ b'/' ∷ b'd' ∷ []

redact_uri-with_scheme_example :
    redact_uri (with_scheme postgres (user ++ b':' ∷ (password ++ b'@' ∷ host)))
    ≡ with_scheme postgres (user ++ b':' ∷ b'*' ∷ b'*' ∷ b'*' ∷ b'@' ∷ host)
redact_uri-with_scheme_example =
    redact_uri-with_scheme postgres user password host (refl, (refl, tt)) (refl, (refl, tt))
      (refl, (refl, tt)) (refl, (refl, (refl, tt)))

abbrev three_dashes : Bytes
three_dashes = b'-' ∷ b'-' ∷ b'-' ∷ []

is_uuid_iff_example : (is_uuid three_dashes ≡ true) ↔ (
    (length three_dashes ≡ 36)
    × ((i c : ℕ)
        → get_elem? three_dashes i ≡ some c
        → (if is_dash_position i then c == b'-' else is_xdigit c) ≡ true))
is_uuid_iff_example = is_uuid_iff three_dashes
