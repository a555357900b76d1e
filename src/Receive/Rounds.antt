-- ===== src/Receive/Rounds.antt =====
-- The rounds of a plain transfer: in one the bytes are read, in the next the offset is confirmed.
use xdccget_for_windows.World.{
  World, done, ◌>>=◌, Net, set_state, Outcome, find_session, confirm_size, IrcDccSession, connected,
  Action, exit_pgm, fault,
}
use xdccget_for_windows.World.Laws.{find_session-id, find_session-update_session}
use xdccget_for_windows.Receive.{
  received, Ready, sent, process_session, recv_dcc_file, state_after_read,
  send_current_file_offset_to_sender,
}
use xdccget_for_windows.Base.{
  ◌++◌, ◌==◌, some, ℕ, refl, ◌≡◌, true, length, List, ◌<◌, [], ◌∷◌, ◌∙◌, ◌+◌, ◌≢◌, subst,
  length-append, All, append-nil, ap, false, arith, sym, ◌^◌, append_assoc,
}
use xdccget_for_windows.Bytes.{Bytes}
use xdccget_for_windows.Receive.Stream.{IsReceiving, recv_dcc_file-IsReceiving, kept}
use xdccget_for_windows.Dcc.{libirc_find_dcc_session}
use xdccget_for_windows.Cfg.{cfg_get_bit, XdccGetConfig, dont_confirm_offsets_flag}

-- The socket is readable and writable, and a read gives `chunk`.
abbrev pub offers : Bytes → Ready
offers chunk = record {
  readable = true;
  writable = true;
  peer_known = true;
  accepts = true;
  reads = received chunk ∷ [];
  send_result = sent 4;
}

abbrev pub two_rounds : Net → World → ℕ → Bytes → Outcome Unit
two_rounds net w i chunk =
    process_session net w i (offers chunk) >>= (λ _ w₁. process_session net w₁ i (offers chunk))

abbrev pub rounds : Net → World → ℕ → List Bytes → Outcome Unit
rounds net w i [] = done tt w
rounds net w i (chunk ∷ chunks) = two_rounds net w i chunk >>= (λ _ w₁. rounds net w₁ i chunks)

abbrev pub all_bytes : List Bytes → Bytes
all_bytes [] = []
all_bytes (chunk ∷ chunks) = chunk ++ all_bytes chunks

-- Confirming the offset of an incomplete file goes back to reading.
process_session_confirms :
    (net : Net) (w : World) (i k : ℕ) (path content : Bytes) (total : ℕ) (chunk : Bytes)
    → (r : IsReceiving w i k path content total confirm_size) → length content < total
    → (w₁ : World) × (process_session net w i (offers chunk) ≡ done tt w₁)
      × (kept w₁ ≡ kept w)
      × IsReceiving w₁ i k path content total connected
unfolding process_session libirc_find_dcc_session
process_session_confirms net w i k path content total chunk r more = (
  set_state w i connected,
  ran,
  refl,
  record {
    session = record r.session { state = connected };
    progress = r.progress;
    found = find_session-update_session i _ (λ x. refl) w.dcc_sessions _ r.found;
    is_plain = r.is_plain;
    calls = r.calls;
    has_ctx = r.has_ctx;
    in_state = refl;
    sized = r.sized;
    offset = r.offset;
    in_array = r.in_array;
    received_size = r.received_size;
    complete_size = r.complete_size;
    stored = r.stored;
  },
)
  where
    incomplete : (r.session.received_file_size == r.session.file_confirm_offset) ≡ false
    incomplete = ground (arith, r.sized, r.offset, more)

    ran : process_session net w i (offers chunk) ≡ done tt (set_state w i connected)
    ran =
        rw
          (
            process_session,
            r.found,
            r.in_state,
            send_current_file_offset_to_sender,
            r.found,
            incomplete,
            find_session-id i w.dcc_sessions r.session r.found,
          )
          refl

-- In the connected state a round reads.
pub process_session_reads :
    (net : Net) (w : World) (i : ℕ) (s : IrcDccSession) (chunk : Bytes)
    → find_session (λ s. s.id == i) w.dcc_sessions ≡ some s
    → s.state ≡ connected
    → process_session net w i (offers chunk) ≡ recv_dcc_file net w i (received chunk ∷ [])
unfolding process_session
process_session_reads net w i s chunk found in_state = rw (process_session, found, in_state) refl

pub state_after_read_confirms :
    (cfg : XdccGetConfig)
    → cfg_get_bit cfg dont_confirm_offsets_flag ≡ false
    → state_after_read cfg ≡ confirm_size
unfolding state_after_read
state_after_read_confirms cfg h = rw (h) refl

-- Bytes that do not complete the file are stored and confirmed, and the session reads on.
two_rounds-IsReceiving :
    (net : Net) (w : World) (i k : ℕ) (path content : Bytes) (total : ℕ) (chunk : Bytes)
    → net.writes ≡ true
    → cfg_get_bit w.cfg dont_confirm_offsets_flag ≡ false
    → (r : IsReceiving w i k path content total connected) → chunk ≢ []
    → length content + length chunk < total
    → total < 2 ^ 64
    → (w₁ : World) × (two_rounds net w i chunk ≡ done tt w₁)
      × (kept w₁ ≡ kept w)
      × IsReceiving w₁ i k path (content ++ chunk) total connected
two_rounds-IsReceiving net w i k path content total [] writes confirms r ne more fits =
    absurd (ne refl)
two_rounds-IsReceiving net w i k path content total (b ∷ bs) writes confirms r ne more fits =
    let (w₁, ran, same, r₁) =
      recv_dcc_file-IsReceiving net w i k path content total b bs writes r more fits in
    let (w₂, ran₂, same₂, r₂) =
      process_session_confirms net w₁ i k path (content ++ (b ∷ bs)) total (b ∷ bs)
        (subst (IsReceiving w₁ i k path (content ++ (b ∷ bs)) total)
          (state_after_read_confirms w.cfg confirms) r₁)
        (omega (arith, length-append content (b ∷ bs), more)) in
    (
      w₂,
      rw (process_session_reads net w i r.session (b ∷ bs) r.found r.in_state, ran) ran₂,
      same₂ ∙ same,
      r₂,
    )

-- Chunks that are not empty and together are not yet the whole file are stored in order behind what
-- the file holds, each is confirmed, and the session goes on reading; configuration, count and
-- actions stay as they are. This is for a plain connection, with offsets confirmed, a size that
-- fits 64 bits, and writing that succeeds.
pub rounds-IsReceiving :
    (net : Net) (chunks : List Bytes) (w : World) (i k : ℕ) (path content : Bytes) (total : ℕ)
    → net.writes ≡ true
    → cfg_get_bit w.cfg dont_confirm_offsets_flag ≡ false
    → IsReceiving w i k path content total connected
    → All (λ chunk. chunk ≢ []) chunks
    → length content + length (all_bytes chunks) < total
    → total < 2 ^ 64
    → (w₁ : World) × (rounds net w i chunks ≡ done tt w₁)
      × (kept w₁ ≡ kept w)
      × IsReceiving w₁ i k path (content ++ all_bytes chunks) total connected
rounds-IsReceiving net [] w i k path content total writes confirms r full more fits = (
  w,
  refl,
  refl,
  subst (λ c. IsReceiving w i k path c total connected) (sym (append-nil content)) r,
)
rounds-IsReceiving net (chunk ∷ chunks) w i k path content total writes confirms r (ne, rest) more
      fits =
    let (w₁, ran, same, r₁) =
      two_rounds-IsReceiving net w i k path content total chunk writes confirms r ne
        (omega (arith, more, length-append chunk (all_bytes chunks))) fits in
    let (w₂, ran₂, same₂, r₂) =
      rounds-IsReceiving net chunks w₁ i k path (content ++ chunk) total writes
        (ap (λ (k : XdccGetConfig × ℕ × List Action × ℕ). cfg_get_bit k.0 dont_confirm_offsets_flag)
            same
          ∙ confirms)
        r₁ rest
        (omega (arith, more, length-append content chunk, length-append chunk (all_bytes chunks)))
        fits in
    (
      w₂,
      rw (ran) ran₂,
      same₂ ∙ same,
      subst (λ c. IsReceiving w₂ i k path c total connected)
          (append_assoc content chunk (all_bytes chunks)) r₂,
    )

bind_then :
    (m : Outcome Unit) (f g : Unit → World → Outcome Unit) (h : Unit → World → Outcome Unit)
    → ((w : World) → f tt w ≡ (h tt w >>= g))
    → (m >>= f) ≡ ((m >>= h) >>= g)
bind_then (done a w) f g h same = same w
bind_then (exit_pgm w) f g h same = refl
bind_then fault f g h same = refl

-- The rounds of two lists of chunks follow one another.
pub rounds-append :
    (net : Net) (w : World) (i : ℕ) (cs ds : List Bytes)
    → rounds net w i (cs ++ ds) ≡ (rounds net w i cs >>= (λ _ w₁. rounds net w₁ i ds))
rounds-append net w i [] ds = refl
rounds-append net w i (c ∷ cs) ds =
    bind_then (two_rounds net w i c) _ _ _ (λ w₁. rounds-append net w₁ i cs ds)
