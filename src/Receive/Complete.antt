-- ===== src/Receive/Complete.antt =====
-- The end of a plain transfer: the chunk that completes the file, and its confirmation.
use xdccget_for_windows.World.{
  World, done, cmd_quit, DccDownloadContext, act, Action, Net, connected, removed, IrcDccSession,
  set_state, find_session, recv_file, confirm_size,
}
use xdccget_for_windows.World.Laws.{find_session-id, find_session-update_session, on_file_self}
use xdccget_for_windows.Base.{
  none, false, ◌≡◌, ◌==◌, [], u32, true, set, ◌∷◌, ◌+◌, ◌++◌, Bool, List, ℕ, refl, length,
  if◌then◌else◌, some, ◌^◌, ◌<◌, ◌≢◌, u64, ◌∙◌, arith, ==_iff, ap, length-set, length-append, All,
}
use xdccget_for_windows.Progress.{output_progress, DccDownloadProgress}
use xdccget_for_windows.Bytes.{codes, Bytes}
use xdccget_for_windows.Transfer.{download_completed, callback_dcc_recv_file}
use xdccget_for_windows.Cfg.{
  cfg_get_bit, verify_checksum_flag, dont_confirm_offsets_flag, XdccGetConfig,
}
use xdccget_for_windows.Receive.Stream.{
  read_world, opened, grown, IsReceiving, callback_stores, recv_dcc_file_reads,
}
use xdccget_for_windows.Receive.Rounds.{
  two_rounds, offers, process_session_reads, state_after_read_confirms, rounds, rounds-IsReceiving,
  rounds-append, all_bytes,
}
use xdccget_for_windows.Dcc.{libirc_dcc_destroy_nolock}
use xdccget_for_windows.Receive.{
  state_after_read, send_current_file_offset_to_sender, process_session,
}

abbrev pub is_last : World → Bool
is_last w = u32 (w.finished_downloads + 1) == length w.contexts

abbrev pub goodbye : List Action
goodbye = cmd_quit (codes "Goodbye!") ∷ []

-- The context's file is closed, the download counted, and the session with the server ended with
-- the last one.
abbrev completed : World → ℕ → DccDownloadContext → World
completed w k c = record w {
  contexts = set w.contexts k (record c { progress = output_progress c.progress; fd = none });
  last_download = w.cur_download;
  finished_downloads = u32 (w.finished_downloads + 1);
  actions = if is_last w then w.actions ++ goodbye else w.actions;
}

-- Whichever world is taken, only its actions differ.
if-done :
    (last : Bool) (w : World)
    → (if last then done tt (act w (cmd_quit (codes "Goodbye!"))) else done tt w)
      ≡ done tt (record w { actions = if last then w.actions ++ goodbye else w.actions })
if-done true w = refl
if-done false w = refl

download_completed_quits :
    (net : Net) (w : World) (k : ℕ) (c : DccDownloadContext)
    → net.closes ≡ true
    → cfg_get_bit w.cfg verify_checksum_flag ≡ false
    → download_completed net w k c ≡ done tt (completed w k c)
unfolding download_completed
download_completed_quits net w k c closes no_verify = rw (closes, no_verify) (if-done (is_last w) _)

-- What a finished transfer leaves: the file, the session to be taken off the list with its socket
-- closed, the count, and the goodbye after the last of the downloads.
pub record IsFinished (before after : World) (i : ℕ) (path content : Bytes) : Type 0 where
  pub session : IrcDccSession
  pub stored : after.files path ≡ some content
  pub found : find_session (λ s. s.id == i) after.dcc_sessions ≡ some session
  pub closed : session.sock_open ≡ false
  pub is_marked : session.state ≡ removed
  pub counted : after.finished_downloads ≡ u32 (before.finished_downloads + 1)
  pub says_goodbye :
      after.actions ≡ (if is_last before then before.actions ++ goodbye else before.actions)

-- The world after the read that completes the file, and after its confirmation.
abbrev completed_world : World → ℕ → ℕ → DccDownloadProgress → Bytes → Bytes → Bytes → World
completed_world w i k p path content bytes =
    completed (read_world w i k p path content bytes) k (opened (grown p bytes) path)

abbrev read_last : World → ℕ → ℕ → DccDownloadProgress → Bytes → Bytes → Bytes → World
read_last w i k p path content bytes =
    set_state (completed_world w i k p path content bytes) i (state_after_read w.cfg)

abbrev session_read : World → IrcDccSession → Bytes → IrcDccSession
session_read w s bytes = record s {
  file_confirm_offset = u64 (s.file_confirm_offset + length bytes);
  state = state_after_read w.cfg;
}

reads_last :
    (net : Net) (w : World) (i k : ℕ) (path content : Bytes) (total b : ℕ) (bs : Bytes)
    → net.writes ≡ true
    → net.closes ≡ true
    → cfg_get_bit w.cfg verify_checksum_flag ≡ false
    → (r : IsReceiving w i k path content total connected)
    → length content + length (b ∷ bs) ≡ total
    → total < 2 ^ 64
    → process_session net w i (offers (b ∷ bs))
      ≡ done tt (read_last w i k r.progress path content (b ∷ bs))
reads_last net w i k path content total b bs writes closes no_verify r whole fits =
    process_session_reads net w i r.session (b ∷ bs) r.found r.in_state
    ∙ recv_dcc_file_reads net w i k r.session b bs r.found r.is_plain r.calls r.has_ctx
        (completed_world w i k r.progress path content (b ∷ bs))
        (callback_stores net _ k r.progress path content (b ∷ bs) writes (ground arith) r.in_array
            r.stored
          ∙ (rw (equal) (download_completed_quits net _ k _ closes no_verify)))
  where
    equal : (u64 (r.progress.size_rcvd + length (b ∷ bs)) == r.progress.complete_file_size) ≡ true
    equal = ground (arith, r.received_size, r.complete_size, whole, fits)

-- The confirmation of the whole file's size ends the transfer.
confirms_last :
    (net : Net) (w : World) (i : ℕ) (s : IrcDccSession) (chunk : Bytes)
    → find_session (λ s. s.id == i) w.dcc_sessions ≡ some s
    → s.state ≡ confirm_size
    → s.cb ≡ recv_file
    → s.received_file_size ≡ s.file_confirm_offset
    → process_session net w i (offers chunk) ≡ done tt (libirc_dcc_destroy_nolock w i)
unfolding process_session callback_dcc_recv_file
confirms_last net w i s chunk found in_state calls equal =
    rw
      (
        process_session,
        found,
        in_state,
        send_current_file_offset_to_sender,
        found,
        (==_iff s.received_file_size s.file_confirm_offset).1 equal,
        calls,
        find_session-id i w.dcc_sessions s found,
      )
      refl

-- The read that completes the file, and the round that confirms it.
pub two_rounds-IsFinished :
    (net : Net) (w : World) (i k : ℕ) (path content : Bytes) (total : ℕ) (chunk : Bytes)
    → net.writes ≡ true
    → net.closes ≡ true
    → cfg_get_bit w.cfg dont_confirm_offsets_flag ≡ false
    → cfg_get_bit w.cfg verify_checksum_flag ≡ false
    → IsReceiving w i k path content total connected
    → chunk ≢ []
    → length content + length chunk ≡ total
    → total < 2 ^ 64
    → (w₁ : World) × (two_rounds net w i chunk ≡ done tt w₁)
      × IsFinished w w₁ i path (content ++ chunk)
unfolding libirc_dcc_destroy_nolock
two_rounds-IsFinished net w i k path content total [] writes closes confirms no_verify r ne whole
      fits =
    absurd (ne refl)
two_rounds-IsFinished net w i k path content total (b ∷ bs) writes closes confirms no_verify r ne
      whole fits =
    let last = read_last w i k r.progress path content (b ∷ bs) in
    let session = session_read w r.session (b ∷ bs) in
    (
      libirc_dcc_destroy_nolock last i,
      rw (reads_last net w i k path content total b bs writes closes no_verify r whole fits) (
          confirms_last net last i session (b ∷ bs) found (state_after_read_confirms w.cfg confirms)
            r.calls confirmed),
      record {
        session = record session { state = removed; sock_open = false };
        stored = on_file_self w path (content ++ (b ∷ bs));
        found = find_session-update_session i _ (λ x. refl) last.dcc_sessions _ found;
        closed = refl;
        is_marked = refl;
        counted = refl;
        says_goodbye =
            ap
              (λ n. if u32 (w.finished_downloads + 1) == n then w.actions ++ goodbye else w.actions)
              (length-set w.contexts k _);
      },
    )
  where
    found :
        find_session
          (λ s. s.id == i)
          (read_last w i k r.progress path content (b ∷ bs)).dcc_sessions
        ≡ some (session_read w r.session (b ∷ bs))
    found =
        find_session-update_session i _ (λ x. refl) _ _
          (find_session-update_session i _ (λ x. refl) w.dcc_sessions _ r.found)

    confirmed : r.session.received_file_size ≡ u64 (r.session.file_confirm_offset + length (b ∷ bs))
    confirmed = omega (arith, r.sized, r.offset, whole, fits)

length_some : (s : Bytes) → s ≢ [] → 0 < length s
length_some [] ne = absurd (ne refl)
length_some (c ∷ s) ne = omega arith

-- A whole transfer: the chunks arrive one by one, each followed by its confirmation, and together
-- with what the file holds they are `total` bytes. The file then holds them in order, the session is
-- closed and marked for removal, the download is counted, and after the last of the downloads the
-- client says goodbye. This is for a plain connection, with offsets confirmed, checksums not
-- verified, writing and closing that succeed, chunks that are not empty, and a size that fits 64 bits.
pub rounds-IsFinished :
    (net : Net) (w : World) (i k : ℕ) (path content : Bytes) (total : ℕ) (chunks : List Bytes)
    (last : Bytes)
    → net.writes ≡ true
    → net.closes ≡ true
    → cfg_get_bit w.cfg dont_confirm_offsets_flag ≡ false
    → cfg_get_bit w.cfg verify_checksum_flag ≡ false
    → IsReceiving w i k path content total connected
    → All (λ chunk. chunk ≢ []) chunks
    → last ≢ []
    → length content + length (all_bytes chunks) + length last ≡ total
    → total < 2 ^ 64
    → (w₁ : World) × (rounds net w i (chunks ++ (last ∷ [])) ≡ done tt w₁)
      × IsFinished w w₁ i path ((content ++ all_bytes chunks) ++ last)
rounds-IsFinished net w i k path content total chunks last writes closes confirms no_verify r full
      ne whole fits =
    let (w₁, ran, same, r₁) =
      rounds-IsReceiving net chunks w i k path content total writes confirms r full
        (omega (arith, whole, length_some last ne)) fits in
    let (w₂, ran₂, f) =
      two_rounds-IsFinished net w₁ i k path (content ++ all_bytes chunks) total last writes closes
        (ap
            (λ (kept : XdccGetConfig × ℕ × List Action × ℕ).
              cfg_get_bit kept.0 dont_confirm_offsets_flag)
            same
          ∙ confirms)
        (ap
            (λ (kept : XdccGetConfig × ℕ × List Action × ℕ).
              cfg_get_bit kept.0 verify_checksum_flag)
            same
          ∙ no_verify)
        r₁ ne (omega (arith, whole, length-append content (all_bytes chunks))) fits in
    (
      w₂,
      rw (rounds-append net w i chunks (last ∷ []), ran, ran₂) refl,
      record {
        session = f.session;
        stored = f.stored;
        found = f.found;
        closed = f.closed;
        is_marked = f.is_marked;
        counted =
            f.counted ∙ ap (λ (kept : XdccGetConfig × ℕ × List Action × ℕ). u32 (kept.1 + 1)) same;
        says_goodbye =
            f.says_goodbye
            ∙ ap
                (λ (kept : XdccGetConfig × ℕ × List Action × ℕ).
                  if u32 (kept.1 + 1) == kept.3 then kept.2 ++ goodbye else kept.2)
                same;
      },
    )
