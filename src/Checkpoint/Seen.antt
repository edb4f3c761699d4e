-- ===== src/Checkpoint/Seen.antt =====
-- What a node has seen of a channel, before and after a write
-- (graphengine/checkpoint/checkpoint.go).
use harness_go.Base.{
  ℕ, String, ◌≡◌, refl, true, false, arith, Dict, insert, lookup-insert, lookup-insert_self,
  nat_beq, ◌==◌, eq_refl, if◌then◌else◌, ◌<◌, ◌^◌, ◌%◌, ◌+◌, ◌≢◌,
}
use harness_go.Value.{add_int}
use harness_go.Checkpoint.{
  Versions, version_of, bump, seen_by, mark, seen, Checkpoint, increment_channel, mark_seen,
  has_seen,
}

pub version_of-bump :
    (k j : String) (m : Versions)
    → version_of (bump k m) j ≡ (if k == j then add_int (version_of m k) 1 else version_of m j)
unfolding version_of bump
version_of-bump k j m = ground (arith, lookup-insert k j (add_int (version_of m k) 1) m)

bump-differs : (v : ℕ) → v < 2 ^ 64 → nat_beq v (add_int v 1) ≡ false
bump-differs v h = let differs : v ≢ (v + 1) % 2 ^ 64 = omega arith in ground arith

seen-mark :
    (versions : Versions) (nodes : Dict Versions) (node channel : String) (now : Versions)
    → seen now (mark versions node channel nodes) node channel
      ≡ nat_beq (version_of versions channel) (version_of now channel)
unfolding seen mark
seen-mark versions nodes node channel now =
    rw
      (
        lookup-insert_self node (insert channel (version_of versions channel) (seen_by nodes node))
            nodes,
        lookup-insert_self channel (version_of versions channel) (seen_by nodes node),
      )
      refl

-- A node that has been marked as having seen a channel has seen it, until the channel's version is
-- incremented; then it has not.
pub has_seen-mark_seen :
    (c : Checkpoint) (node channel : String)
    → version_of c.channel_versions channel < 2 ^ 64
    → (has_seen (mark_seen c node channel) node channel ≡ true)
      × (has_seen (increment_channel (mark_seen c node channel) channel) node channel ≡ false)
unfolding has_seen mark_seen increment_channel
has_seen-mark_seen c node channel h = (
  rw (seen-mark c.channel_versions c.versions_seen node channel c.channel_versions) (ground arith),
  rw
      (
        seen-mark c.channel_versions c.versions_seen node channel (bump channel c.channel_versions),
        version_of-bump channel channel c.channel_versions,
        eq_refl,
      )
      (bump-differs (version_of c.channel_versions channel) h),
)
