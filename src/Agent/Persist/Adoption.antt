-- ===== src/Agent/Persist/Adoption.antt =====
-- Which sessions an agent adopts.
use terminal_x.Common.{
  ℕ, ◌≡◌, ◌≢◌, ◌∙◌, Bool, true, false, String, Option, none, some, List, nat_beq_iff, nat_key,
  string_key, arith, Option-cases, Bool-cases, inl, inr,
}
use terminal_x.Common.Maps.{lookup, lookup-insert}
use terminal_x.Session.Life.{set_tool_session}
use terminal_x.Session.Life.Start.{Host, Start, adopt}
use terminal_x.Agent.{Agent, Live}
use terminal_x.Agent.Persist.{
  Meta, Dirs, write_meta, read_meta, note_tool_session, adopt_options, adopted, adopt_session,
  is_alive, recovered,
}

abbrev or_old : Option Live → Option Live → Option Live
or_old none old = old
or_old (some l) old = some l

abbrev is_there : Option (Option Meta) → Bool
is_there none = false
is_there (some _) = true

adopted-note :
    (m : Meta) (x : Start) (l : Live)
    → m.tool_session_id ≢ ""
    → adopted m x ≡ some l
    → l.session.tool_session_id ≡ m.tool_session_id
unfolding set_tool_session
adopted-note m (Start.started s ring) l ne e =
    ground (arith, string_key.agrees_iff m.tool_session_id "", ne, e)
adopted-note m (Start.refused x) l ne e = absurd (ground (arith, e))
adopted-note m Start.panics l ne e = absurd (ground (arith, e))

read_meta-note_tool_session :
    (sid : ℕ) (id : String) (dirs : Dirs) (m : Meta)
    → id ≢ ""
    → read_meta sid (note_tool_session true sid id dirs) ≡ some m
    → m.tool_session_id ≡ id
unfolding note_tool_session read_meta write_meta
read_meta-note_tool_session sid id dirs m ne e = elim (Option-cases (lookup sid dirs)) [
  | inl n ↦ absurd (ground (arith, n, e))
  | inr (none, f) ↦ absurd (ground (arith, f, e))
  | inr (some m0, f) ↦
      let noted : Meta = record m0 { sid = sid; tool_session_id = id } in
      ground (
        arith,
        f,
        e,
        ne,
        string_key.agrees_iff id "",
        string_key.agrees_iff m0.tool_session_id id,
        nat_beq_iff sid sid,
        lookup-insert sid sid (some noted) dirs,
      )
]

-- A session that is adopted after its tool's id was noted goes by this id, if the id is not empty.
pub recovered-note_tool_session :
    (alive : List ℕ) (conf id : String) (host : ℕ → Host) (now sid : ℕ) (dirs : Dirs) (l : Live)
    → id ≢ ""
    → recovered alive conf host now (note_tool_session true sid id dirs) sid ≡ some l
    → l.session.tool_session_id ≡ id
unfolding adopt_session
recovered-note_tool_session alive conf id host now sid dirs l ne e =
    let dirs1 = note_tool_session true sid id dirs in
    elim (Bool-cases (is_alive sid alive)) [
      | inr n ↦ absurd (ground (arith, n, e))
      | inl n ↦ elim (Option-cases (read_meta sid dirs1)) [
        | inl o ↦ absurd (ground (arith, n, o, e))
        | inr (m, o) ↦
            let noted = read_meta-note_tool_session sid id dirs m ne o in
            adopted-note m (adopt (adopt_options conf m) (host sid) now) l (rw noted ne)
              (ground (arith, n, o, e))
            ∙ noted
      ]
    ]
