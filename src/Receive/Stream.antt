-- ===== src/Receive/Stream.antt =====
-- A transfer as a whole: the bytes of a plain connection reach the file, each read is confirmed, and
-- the last one ends the transfer.
use xdccget_for_windows.World.{
  World, done, DccState, on_session, Net, on_context, on_file, DccDownloadContext, IrcDccSession,
  recv_file, find_session, set_state, Outcome, connected, Action,
}
use xdccget_for_windows.World.Laws.{
  find_session-id, get_elem?-set, on_file_self, find_session-update_session,
}
use xdccget_for_windows.Base.{
  true, u64, if◌then◌else◌, ◌==◌, ℕ, some, length, refl, ◌∷◌, false, ◌++◌, ◌+◌, ◌≡◌, [], get_elem?,
  length-append, ◌^◌, ◌<◌, arith, ◌∙◌, length-set, ap, List,
}
use xdccget_for_windows.Transfer.{callback_dcc_recv_file, download_completed}
use xdccget_for_windows.Bytes.{Bytes}
use xdccget_for_windows.Receive.{recv_dcc_file, received, state_after_read}
use xdccget_for_windows.Progress.{DccDownloadProgress}
use xdccget_for_windows.Cfg.{XdccGetConfig}

abbrev pub opened : DccDownloadProgress → Bytes → DccDownloadContext
opened p path = record { progress = p; fd = some path }

-- The session `i`, in `state`, fills the file `path` for the context `k`: the file holds `content`,
-- whose length is the size received and the offset to confirm, out of `total` bytes.
pub record IsReceiving (w : World) (i k : ℕ) (path content : Bytes) (total : ℕ) (state : DccState)
    : Type 0 where
  pub session : IrcDccSession
  pub progress : DccDownloadProgress
  pub found : find_session (λ s. s.id == i) w.dcc_sessions ≡ some session
  pub is_plain : session.ssl ≡ false
  pub calls : session.cb ≡ recv_file
  pub has_ctx : session.ctx ≡ some k
  pub in_state : session.state ≡ state
  pub sized : session.received_file_size ≡ total
  pub offset : session.file_confirm_offset ≡ length content
  pub in_array : get_elem? w.contexts k ≡ some (opened progress path)
  pub received_size : progress.size_rcvd ≡ length content
  pub complete_size : progress.complete_file_size ≡ total
  pub stored : w.files path ≡ some content

-- The progress and the world after bytes were written to `path`.
abbrev pub grown : DccDownloadProgress → Bytes → DccDownloadProgress
grown p bytes = record p { size_rcvd = u64 (p.size_rcvd + length bytes) }

abbrev pub stored_world : World → ℕ → DccDownloadProgress → Bytes → Bytes → Bytes → World
stored_world w k p path content bytes =
    on_file (on_context w k (opened (grown p bytes) path)) path (content ++ bytes)

abbrev pub completes : Net → World → ℕ → DccDownloadProgress → Bytes → Outcome Unit
completes net w k p path =
    if p.size_rcvd == p.complete_file_size
    then download_completed net w k (opened p path)
    else done tt w

pub callback_stores :
    (net : Net) (w : World) (k : ℕ) (p : DccDownloadProgress) (path content bytes : Bytes)
    → net.writes ≡ true
    → (length bytes == 0) ≡ false
    → get_elem? w.contexts k ≡ some (opened p path)
    → w.files path ≡ some content
    → callback_dcc_recv_file net w 0 (some k) (some bytes)
      ≡ completes net (stored_world w k p path content bytes) k (grown p bytes) path
unfolding callback_dcc_recv_file
callback_stores net w k p path content bytes writes some_bytes in_array stored =
    rw (some_bytes, in_array, stored, writes) refl

completes_unfinished :
    (net : Net) (w : World) (k : ℕ) (p : DccDownloadProgress) (path : Bytes)
    → p.size_rcvd < p.complete_file_size
    → completes net w k p path ≡ done tt w
completes_unfinished net w k p path h = rw (unequal) refl
  where
    unequal : (p.size_rcvd == p.complete_file_size) ≡ false
    unequal = ground arith

-- A read on a plain session that receives files.
pub recv_dcc_file_reads :
    (net : Net) (w : World) (i k : ℕ) (s : IrcDccSession) (b : ℕ) (bs : Bytes)
    → find_session (λ s. s.id == i) w.dcc_sessions ≡ some s
    → s.ssl ≡ false
    → s.cb ≡ recv_file
    → s.ctx ≡ some k
    → (w₂ : World)
    → callback_dcc_recv_file net
        (on_session w i
          (λ s. record s { file_confirm_offset = u64 (s.file_confirm_offset + length (b ∷ bs)) }))
        0
        (some k)
        (some (b ∷ bs))
      ≡ done tt w₂
    → recv_dcc_file net w i (received (b ∷ bs) ∷ [])
      ≡ done tt (set_state w₂ i (state_after_read w₂.cfg))
unfolding recv_dcc_file
recv_dcc_file_reads net w i k s b bs found is_plain calls has_ctx w₂ e =
    rw (recv_dcc_file, found, is_plain, calls, has_ctx, find_session-id i w.dcc_sessions s found, e)
      refl

-- The sessions after a read, and the world with the session in its next state.
abbrev pub read_world : World → ℕ → ℕ → DccDownloadProgress → Bytes → Bytes → Bytes → World
read_world w i k p path content bytes =
    stored_world
      (on_session w i
        (λ s. record s { file_confirm_offset = u64 (s.file_confirm_offset + length bytes) }))
      k p path content bytes

abbrev pub after_read : World → ℕ → ℕ → DccDownloadProgress → Bytes → Bytes → Bytes → World
after_read w i k p path content bytes =
    set_state (read_world w i k p path content bytes) i (state_after_read w.cfg)

-- What a transfer leaves alone until it is finished: the configuration, the count of finished
-- downloads, the actions, and the number of downloads.
abbrev pub kept : World → XdccGetConfig × ℕ × List Action × ℕ
kept w = (w.cfg, w.finished_downloads, w.actions, length w.contexts)

-- Some bytes that do not complete the file, read on a plain connection, are appended to it and
-- counted, if writing succeeds and the size fits 64 bits. The session is then in the state in which
-- the offset is confirmed, or reads on where offsets are not confirmed.
pub recv_dcc_file-IsReceiving :
    (net : Net) (w : World) (i k : ℕ) (path content : Bytes) (total b : ℕ) (bs : Bytes)
    → net.writes ≡ true
    → (r : IsReceiving w i k path content total connected)
    → length content + length (b ∷ bs) < total
    → total < 2 ^ 64
    → (w₁ : World) × (recv_dcc_file net w i (received (b ∷ bs) ∷ []) ≡ done tt w₁)
      × (kept w₁ ≡ kept w)
      × IsReceiving w₁ i k path (content ++ (b ∷ bs)) total (state_after_read w.cfg)
recv_dcc_file-IsReceiving net w i k path content total b bs writes r more fits = (
  after_read w i k r.progress path content (b ∷ bs),
  ran,
  ap (λ (n : ℕ). (w.cfg, w.finished_downloads, w.actions, n)) (length-set w.contexts k _),
  record {
    session = record r.session {
      file_confirm_offset = u64 (r.session.file_confirm_offset + length (b ∷ bs));
      state = state_after_read w.cfg;
    };
    progress = grown r.progress (b ∷ bs);
    found =
        find_session-update_session i _ (λ x. refl) _ _
          (find_session-update_session i _ (λ x. refl) w.dcc_sessions _ r.found);
    is_plain = r.is_plain;
    calls = r.calls;
    has_ctx = r.has_ctx;
    in_state = refl;
    sized = r.sized;
    offset = counted _ r.offset;
    in_array = get_elem?-set w.contexts k _ _ r.in_array;
    received_size = counted _ r.received_size;
    complete_size = r.complete_size;
    stored = on_file_self w path (content ++ (b ∷ bs));
  },
)
  where
    counted :
        (n : ℕ) → n ≡ length content → u64 (n + length (b ∷ bs)) ≡ length (content ++ (b ∷ bs))
    counted n e = omega (arith, e, length-append content (b ∷ bs), more, fits)

    ran :
        recv_dcc_file net w i (received (b ∷ bs) ∷ [])
        ≡ done tt (after_read w i k r.progress path content (b ∷ bs))
    ran =
        recv_dcc_file_reads net w i k r.session b bs r.found r.is_plain r.calls r.has_ctx
          (read_world w i k r.progress path content (b ∷ bs))
          (callback_stores net _ k r.progress path content (b ∷ bs) writes (ground arith) r.in_array
              r.stored
            ∙ completes_unfinished net _ k _ path (
                omega (
                  arith,
                  counted _ r.received_size,
                  length-append content (b ∷ bs),
                  more,
                  r.complete_size,
                )))
