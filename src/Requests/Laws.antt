-- ===== src/Requests/Laws.antt =====
-- The lists of the command line are read back: channels and bot commands, with blanks around them.
use xdccget_for_windows.Bytes.{Bytes}
use xdccget_for_windows.Base.{
  length, [], ◌+◌, ℕ, ◌≡◌, ◌++◌, false, arith, ◌∷◌, refl, take-length-append, take, List, ◌∙◌, All,
  ap, ap₂, drop, none, ◌≢◌, suc, map, length-map,
}
use xdccget_for_windows.Requests.{
  parse_dcc_download, space_from, new_dcc_download, parse_channels, parse_dcc_downloads,
}
use xdccget_for_windows.Bytes.Sds.{has_byte, join, Sds, AllIn, IsBare, SdsLaws}
use xdccget_for_windows.Bytes.Split.{split-join, IsFree}
use xdccget_for_windows.Cfg.{DccDownload}
use xdccget_for_windows.Options.{blanks}

space_from_first :
    (i : ℕ) (nick rest : Bytes)
    → has_byte b' ' nick ≡ false
    → space_from i (nick ++ (b' ' ∷ rest)) ≡ i + length nick
unfolding space_from
space_from_first i [] rest h = omega arith
space_from_first i (c ∷ nick) rest h = ground (arith, space_from_first (i + 1) nick rest)

drop_past :
    (nick : Bytes) (c : ℕ) (rest : Bytes) → drop (length nick + 1) (nick ++ (c ∷ rest)) ≡ rest
drop_past nick c rest = ap (λ n. drop n (nick ++ (c ∷ rest))) one_more ∙ from nick
  where
    one_more : length nick + 1 ≡ suc (length nick)
    one_more = omega arith

    from : (s : Bytes) → drop (suc (length s)) (s ++ (c ∷ rest)) ≡ rest
    from [] = refl
    from (a ∷ s) = from s

-- A nick without blanks, a blank and a command are taken apart into the two.
pub parse_dcc_download_lem :
    (nick cmd : Bytes)
    → has_byte b' ' nick ≡ false
    → parse_dcc_download (nick ++ (b' ' ∷ cmd)) ≡ (nick, cmd)
unfolding parse_dcc_download
parse_dcc_download_lem nick cmd h =
    ap (λ n. (take n text, drop (n + 1) text)) found
    ∙ ground (arith, take-length-append nick (b' ' ∷ cmd), drop_past nick b' ' cmd)
  where
    text : Bytes
    text = nick ++ (b' ' ∷ cmd)

    found : space_from 0 text ≡ length nick
    found = space_from_first 0 nick cmd h ∙ omega arith

-- A request as it is written: blanks, the bot's nick, a blank, the command, and blanks.
pub record Request : Type 0 where
  pub lead : Bytes
  pub nick : Bytes
  pub cmd : Bytes
  pub trail : Bytes

abbrev pub render_request : Request → Bytes
render_request r = r.lead ++ ((r.nick ++ (b' ' ∷ r.cmd)) ++ r.trail)

-- The nick holds no blank; the whole begins and ends with no blank, and holds no comma.
pub record IsRequest (r : Request) : Type 0 where
  pub lead_blank : AllIn blanks r.lead
  pub trail_blank : AllIn blanks r.trail
  pub nick_whole : has_byte b' ' r.nick ≡ false
  pub bare : IsBare blanks (r.nick ++ (b' ' ∷ r.cmd))
  pub no_comma : has_byte b',' (render_request r) ≡ false

abbrev pub wanted : Request → DccDownload
wanted r = record { bot_nick = r.nick; xdcc_cmd = r.cmd; md5 = none }

-- A channel as it is written, with blanks around it.
pub record Channel : Type 0 where
  pub lead : Bytes
  pub name : Bytes
  pub trail : Bytes

abbrev pub render_channel : Channel → Bytes
render_channel c = c.lead ++ (c.name ++ c.trail)

pub record IsChannel (c : Channel) : Type 0 where
  pub lead_blank : AllIn blanks c.lead
  pub trail_blank : AllIn blanks c.trail
  pub bare : IsBare blanks c.name
  pub no_comma : has_byte b',' (render_channel c) ≡ false

abbrev pub channel_name : Channel → Bytes
channel_name c = c.name

module _ (sds : Sds) (laws : SdsLaws sds) where
  requests-IsFree : (rs : List Request) → All IsRequest rs → IsFree b',' (map render_request rs)
  requests-IsFree [] h = tt
  requests-IsFree (r ∷ rs) h = (h.0.no_comma, requests-IsFree rs h.1)

  abbrev download_of : Bytes → DccDownload
  download_of s =
      let parts = parse_dcc_download (sds.trim s blanks) in new_dcc_download parts.0 parts.1

  downloads_wanted :
      (rs : List Request)
      → All IsRequest rs
      → map download_of (map render_request rs) ≡ map wanted rs
  unfolding new_dcc_download
  downloads_wanted [] h = refl
  downloads_wanted (r ∷ rs) h = ap₂ ◌∷◌ first (downloads_wanted rs h.1)
    where
      trimmed : sds.trim (render_request r) blanks ≡ r.nick ++ (b' ' ∷ r.cmd)
      trimmed =
          laws.trim_core blanks r.lead (r.nick ++ (b' ' ∷ r.cmd)) r.trail h.0.lead_blank
            h.0.trail_blank h.0.bare

      first : download_of (render_request r) ≡ wanted r
      first =
          ap (λ s. let parts = parse_dcc_download s in new_dcc_download parts.0 parts.1) trimmed
          ∙ ap (λ (parts : Bytes × Bytes). new_dcc_download parts.0 parts.1)
              (parse_dcc_download_lem r.nick r.cmd h.0.nick_whole)

  -- A list of requests with commas between them is read as the downloads that are asked for, in
  -- order, and with their number.
  pub parse_dcc_downloads_lem :
      (rs : List Request)
      → All IsRequest rs
      → join b',' (map render_request rs) ≢ []
      → parse_dcc_downloads sds (join b',' (map render_request rs)) ≡ (map wanted rs, length rs)
  unfolding parse_dcc_downloads
  parse_dcc_downloads_lem rs h some_text =
      ap (λ parts. (map download_of parts, length parts))
        (split-join sds laws b',' (map render_request rs) (requests-IsFree rs h) some_text)
      ∙ ap₂ (λ (ds : List DccDownload) (n : ℕ). (ds, n)) (downloads_wanted rs h)
          (length-map rs render_request)

  channels-IsFree : (cs : List Channel) → All IsChannel cs → IsFree b',' (map render_channel cs)
  channels-IsFree [] h = tt
  channels-IsFree (c ∷ cs) h = (h.0.no_comma, channels-IsFree cs h.1)

  channels_trimmed :
      (cs : List Channel)
      → All IsChannel cs
      → map (λ s. sds.trim s blanks) (map render_channel cs) ≡ map channel_name cs
  channels_trimmed [] h = refl
  channels_trimmed (c ∷ cs) h =
      ap₂ ◌∷◌ (laws.trim_core blanks c.lead c.name c.trail h.0.lead_blank h.0.trail_blank h.0.bare)
        (channels_trimmed cs h.1)

  -- A list of channels with commas between them is read as the channels, without the blanks around
  -- them and in order.
  parse_channels_lem :
      (cs : List Channel)
      → All IsChannel cs
      → join b',' (map render_channel cs) ≢ []
      → parse_channels sds (join b',' (map render_channel cs)) ≡ map channel_name cs
  unfolding parse_channels
  parse_channels_lem cs h some_text =
      rw (split-join sds laws b',' (map render_channel cs) (channels-IsFree cs h) some_text)
        (channels_trimmed cs h)
