-- ===== src/Pages/Topology/Drawing.antt =====
-- `drawDots` of the topology page of ui/nats-kv-user/src/lib.rs, and what `selectBucket` draws.
-- `fixed` is `.toFixed(1)` of a quotient, and `raw` the quotient in a template.
use nats_kv.Prelude.{ℕ, ◌+◌, ◌*◌, List, [], ◌∷◌, ◌++◌, map, if◌then◌else◌}
use nats_kv.Text.{concat, Text, codes, join}
use nats_kv.Browser.Values.{show}
use nats_kv.Pages.Topology.{has}
use nats_kv.Pages.Topology.Regions.{Region, regions, proj}
use nats_kv.Pages.Topology.Peers.{Point, Peer, Mirror, centroid, is_leader}

module _ (fixed raw : ℕ × ℕ → Text) where
  -- `y + 12`
  abbrev lower : ℕ × ℕ → ℕ × ℕ
  lower (n, d) = (n + 12 * d, d)

  unfoldable pub dot : List Text → Region → Text
  unfolding has
  dot active r =
      let cls = if has active r.name then codes "region-dot has-bucket" else codes "region-dot" in
      concat (
        codes "<circle cx=\""
        ∷ fixed (proj r).0
        ∷ codes "\" cy=\""
        ∷ fixed (proj r).1
        ∷ codes "\" r=\"3\" class=\""
        ∷ cls
        ∷ codes "\"><title>"
        ∷ r.name
        ∷ codes "</title></circle>"
        ∷ [])

  unfoldable pub dot_label : Region → Text
  dot_label r = concat (
      codes "<text x=\""
      ∷ fixed (proj r).0
      ∷ codes "\" y=\""
      ∷ fixed (lower (proj r).1)
      ∷ codes "\" class=\"region-label\">"
      ∷ r.name
      ∷ codes "</text>"
      ∷ [])

  -- The dots and the labels of `drawDots`
  unfoldable pub dots : List Text → Text
  unfolding dot
  dots active = concat (map (dot active) regions)

  unfoldable pub dot_labels : Text
  unfolding dot_label
  dot_labels = concat (map dot_label regions)

  abbrev corner : Peer → Text
  corner p = fixed (proj p.spot).0 ++ (codes "," ++ fixed (proj p.spot).1)

  -- The shape of two replicas or more
  unfoldable pub outline : Text → List Peer → Text
  outline color [] = []
  outline color (p ∷ []) = []
  outline color (p ∷ q ∷ ps) =
      let poly = join (codes " ") (map corner (p ∷ q ∷ ps)) in
      concat (
        codes "<polygon points=\""
        ∷ poly
        ∷ codes "\" class=\"raft-fill\" style=\"fill:"
        ∷ color
        ∷ codes "\"/><polyline points=\""
        ∷ poly
        ∷ codes " "
        ∷ corner p
        ∷ codes "\" class=\"raft-edge\" style=\"stroke:"
        ∷ color
        ∷ codes "\"/>"
        ∷ [])

  -- A mirror, joined to the centre of the replicas
  unfoldable pub mirror_mark : Point → Mirror → Text
  mirror_mark centre m = concat (
      codes "<line x1=\""
      ∷ fixed centre.0
      ∷ codes "\" y1=\""
      ∷ fixed centre.1
      ∷ codes "\" x2=\""
      ∷ fixed (proj m.spot).0
      ∷ codes "\" y2=\""
      ∷ fixed (proj m.spot).1
      ∷ codes "\" stroke=\"#bc8cff\" stroke-width=\"1\" stroke-dasharray=\"3 3\" opacity=\"0.6\"/>"
      ∷ codes "<circle cx=\""
      ∷ raw (proj m.spot).0
      ∷ codes "\" cy=\""
      ∷ raw (proj m.spot).1
      ∷ codes "\" r=\"3\" fill=\"#bc8cff\"><title>mirror in "
      ∷ m.spot.name
      ∷ codes " (lag "
      ∷ m.lag_msgs
      ∷ codes " msgs)</title></circle>"
      ∷ [])

  -- `<circle cx=… cy=…` of a peer
  abbrev circle_at : Peer → Text
  circle_at p =
      concat
        (codes "<circle cx=\"" ∷ raw (proj p.spot).0 ∷ codes "\" cy=\"" ∷ raw (proj p.spot).1 ∷ [])

  unfoldable pub leader_mark : Text → Peer → Text
  leader_mark color p =
      if is_leader p.role
      then concat (
          circle_at p
          ∷ codes "\" r=\"14\" fill=\"url(#leader-glow)\"/>"
          ∷ circle_at p
          ∷ codes "\" r=\"6\" class=\"leader-ring\" style=\"stroke:"
          ∷ color
          ∷ codes "\"/>"
          ∷ [])
      else []

  unfoldable pub peer_mark : Text → Peer → Text
  unfolding leader_mark
  peer_mark color p =
      leader_mark color p
      ++ concat (
          circle_at p
          ∷ codes "\" r=\"4\" style=\"fill:"
          ∷ color
          ∷ codes "\"><title>"
          ∷ p.spot.name
          ∷ codes " ("
          ∷ show p.role
          ∷ codes ")</title></circle>"
          ∷ [])

  -- The overlay
  unfoldable pub overlay : Text → List Peer → List Mirror → Text
  unfolding outline mirror_mark peer_mark centroid
  overlay color ps ms =
      outline color ps
      ++ (concat (map (mirror_mark (centroid ps)) ms) ++ concat (map (peer_mark color) ps))
