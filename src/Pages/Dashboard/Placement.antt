-- ===== src/Pages/Dashboard/Placement.antt =====
-- `renderPlacement` of ui/nats-kv-user/src/lib.rs, without the white space between the tags.
use nats_kv.Prelude.{Bool, true, false, not, ◌==◌, Option, some, List, [], ◌∷◌, ◌++◌, if◌then◌else◌}
use nats_kv.Text.{Text, codes, same, is_empty}
use nats_kv.Browser.{Browser, or_text}
use nats_kv.Browser.Values.{
  Json, absent, null, bool, num, str, field, truthy, list_of, show, show_or, is_nullish,
}
use nats_kv.AdminPage.Rows.{◌>>=◌, rows_of}

-- What `join` makes of one element.
abbrev pub element_text : Json → Text
element_text j = if is_nullish j then [] else show j

-- `list.join(between)`
unfoldable pub joined : Text → List Json → Text
joined between [] = []
joined between (j ∷ []) = element_text j
joined between (j ∷ k ∷ js) =
    let rest = joined between (k ∷ js) in element_text j ++ (between ++ rest)

-- `(d.key || []).join(", ")`
abbrev pub names_of : Json → Text → Option Text
names_of d key = do l ← list_of (field d key); some (joined (codes ", ") l)

-- `a === b`, where neither is an array or an object
abbrev pub same_text : Json → Json → Bool
same_text absent absent = true
same_text null null = true
same_text (bool a) (bool b) = if a then b else not b
same_text (num m) (num n) = m == n
same_text (str s) (str u) = same s u
same_text _ _ = false

abbrev preview_cell : Text → Text → Text
preview_cell style text =
    codes "<td style=\"padding:2px 8px" ++ (style ++ (codes "\">" ++ (text ++ codes "</td>")))

abbrev bulleted : Text → List Json → Text
bulleted between [] = []
bulleted between (j ∷ []) = codes "• " ++ show j
bulleted between (j ∷ k ∷ js) =
    let rest = bulleted between (k ∷ js) in codes "• " ++ (show j ++ (between ++ rest))

module _ (browser : Browser) where
  -- A number with one decimal place and its unit.
  abbrev milliseconds : Json → Option Text
  milliseconds j = do n ← browser.to_fixed 1 j; some (n ++ codes "ms")

  -- What is measured only for a geo that is eligible.
  abbrev measured : Bool → Json → Option Text
  measured eligible j = if eligible then milliseconds j else some (codes "—")

  -- A row of the candidates
  unfoldable pub candidate_row : Json → Json → Option Text
  candidate_row d c = do
    let winner = same_text (field c (codes "geo")) (field d (codes "chosen_geo"))
    let eligible = truthy (field c (codes "eligible"))
    score ← measured eligible (field c (codes "write_latency_ms"))
    regions ← names_of c (codes "regions")
    edge ← measured eligible (field c (codes "quorum_edge_ms"))
    some (
        codes "<tr style=\""
        ++ ((if winner then codes "font-weight:600" else [])
            ++ (codes "\">"
                ++ (preview_cell [] (
                      codes "<span class=\""
                      ++ ((if winner then codes "ok" else if eligible then [] else codes "meta")
                          ++ (codes "\">"
                              ++ (show (field c (codes "geo"))
                                  ++ (codes "</span>" ++ (if winner then codes " ★" else []))))))
                    ++ (preview_cell [] score
                        ++ (preview_cell [] edge
                            ++ (preview_cell (codes ";font-size:11px")
                                  (or_text (some regions) (codes "—"))
                                ++ (preview_cell (codes ";font-size:11px;color:#8b949e")
                                      (show_or (field c (codes "reason")) [])
                                    ++ codes "</tr>"))))))))

  -- The lines about the winner: the regions that were predicted, and those in use if known
  unfoldable pub placement_line : Json → Option Text
  placement_line d = do
    predicted ← names_of d (codes "chosen_regions")
    actual ← names_of d (codes "actual_regions")
    write ← milliseconds (field d (codes "write_latency_ms"))
    edge ← milliseconds (field d (codes "quorum_edge_ms"))
    let geo = show (field d (codes "chosen_geo"))
    let winner =
        codes "Winner: <span class=\"ok\"><b>"
        ++ (geo
            ++ (codes "</b></span> · expected write "
                ++ (write ++ (codes " · quorum edge " ++ edge))))
    some (
        if is_empty actual
        then winner ++ (codes " · regions <code>" ++ (predicted ++ codes "</code>"))
        else winner
          ++ (codes "<br><span class=\"meta\">predicted regions: <code>"
              ++ (predicted
                  ++ (codes "</code></span><br>actual regions: <code>"
                      ++ (actual
                          ++ (codes "</code> <span class=\"meta\">(NATS picks within geo:"
                              ++ (geo ++ codes ")</span>")))))))

  abbrev sampled : Json → Text
  sampled d =
      let at = field d (codes "matrix_sampled_at") in
      if truthy at then browser.show_time at else codes "—"

  abbrev notes_markup : List Json → Text
  notes_markup [] = []
  notes_markup (n ∷ ns) =
      codes "<div class=\"meta\" style=\"margin-top:4px\">"
      ++ (bulleted (codes "<br>") (n ∷ ns) ++ codes "</div>")

  -- `renderPlacement`; it throws where a latency is no number or a list is none.
  unfoldable pub render_placement : Json → Option Text
  unfolding candidate_row placement_line rows_of
  render_placement d = do
    candidates ← list_of (field d (codes "candidates"))
    rows ← rows_of (candidate_row d) candidates
    line ← placement_line d
    notes ← list_of (field d (codes "notes"))
    some (
        codes "<div style=\"margin-bottom:6px\"><b>Auto-placement</b> · anchor <code>"
        ++ (show (field d (codes "anchor"))
            ++ (codes "</code> · R"
                ++ (show (field d (codes "replicas"))
                    ++ (codes " · matrix sampled "
                        ++ (sampled d
                            ++ (codes "</div><div style=\"margin-bottom:6px\">"
                                ++ (line
                                    ++ (codes
                                          "</div><table style=\"width:100%; border-collapse:collapse; font-size:12px\"><thead><tr style=\"border-bottom:1px solid #30363d\"><th style=\"text-align:left;padding:2px 8px\">geo</th><th style=\"text-align:left;padding:2px 8px\">write</th><th style=\"text-align:left;padding:2px 8px\">quorum edge</th><th style=\"text-align:left;padding:2px 8px\">regions</th><th style=\"text-align:left;padding:2px 8px\">reason</th></tr></thead><tbody>"
                                        ++ (rows
                                            ++ (codes "</tbody></table>"
                                                ++ notes_markup notes)))))))))))
