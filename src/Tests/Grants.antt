-- ===== src/Tests/Grants.antt =====
-- Runs of the exchange of a code: internal/usecase/session/grant.go.
use eve_online_mcp.Prelude.{◌+◌, ◌≡◌, refl, false, some, find?, count}
use eve_online_mcp.Repo.Sessions.{is_open_for, is_live, lifetime}
use eve_online_mcp.Repo.Mutations
use eve_online_mcp.Grant.{redeem}
use eve_online_mcp.Grant.Redeem.{Redeemed, redeem-Redeemed}
use eve_online_mcp.Grant.Spent.{one_session, redeem_twice, Refused}
use eve_online_mcp.Grant.Answers.{Ends, redeem-Ends}
use eve_online_mcp.Tests.Samples.{calm, sample_grant, parked}

redeem-Ends_example : Ends (redeem sample_grant calm)
unfolding Mutations.character_exists
redeem-Ends_example = redeem-Ends sample_grant parked calm (λ n. refl) refl refl refl refl

redeemed : Ends (redeem sample_grant calm)
redeemed = redeem-Ends_example

redeem-Redeemed_example : Redeemed sample_grant redeemed.answer calm redeemed.after
redeem-Redeemed_example =
    redeem-Redeemed sample_grant redeemed.answer calm redeemed.after refl redeemed.answered

one_session_example :
    (count (is_open_for 90) redeemed.after.db.sessions ≡ 1)
    × ((find? (is_live redeemed.answer.session.id 100) redeemed.after.db.sessions
          ≡ some redeemed.answer.session)
        × (redeemed.answer.session.valid_til ≡ 100 + lifetime))
one_session_example =
    one_session sample_grant redeemed.answer calm redeemed.after refl redeemed.answered

redeem_twice_example :
    Refused
      (record redeemed.after { in_tx = false })
      (redeem sample_grant (record redeemed.after { in_tx = false }))
redeem_twice_example =
    redeem_twice sample_grant sample_grant redeemed.answer calm redeemed.after
      (record redeemed.after { in_tx = false }) refl redeemed.answered refl refl refl
