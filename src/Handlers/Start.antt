-- ===== src/Handlers/Start.antt =====
-- handleStart of pkg/handlers/start.go: the help.
use ttbot_repo_placeholder.Prelude.{◌++◌}
use ttbot_repo_placeholder.Text.{Text, text}
use ttbot_repo_placeholder.Messages.{Message}
use ttbot_repo_placeholder.Bot.{Env, Act, GoError}
use ttbot_repo_placeholder.Handlers.Replies.{reply}

unfoldable pub help : Text
help =
    text "ttbot — table-tennis match tracker.\n"
    ++ (text "\n"
        ++ (text "Matches topic:\n"
            ++ (text
                  "  /match — open an interactive opponent + score picker (recommended; no args needed)\n"
                ++ (text "  /match @opponent 3-1 — you vs opponent (your score first)\n"
                    ++ (text "  /match @p1 @p2 3-1 — register a match between two named players\n"
                        ++ (text "  /undo #N — undo or restore match #N (two-step confirm)\n"
                            ++ (text
                                  "  /ping — bot reacts 👍 to your message and remembers your @username so others can /match @you\n"
                                ++ (text "\n"
                                    ++ (text
                                          "For the typed forms, each player token can be either @telegram_username or a bare S21 nickname.\n"
                                        ++ (text
                                              "Live leaderboards and per-player stats are auto-maintained as pinned messages in the stats topic.\n"
                                            ++ (text "\n"
                                                ++ (text "DM:\n"
                                                    ++ (text "  /start, /help — this message\n"
                                                        ++ (text
                                                            "  /login — store S21 creds so ttbot can call the identity service. Two-step\n"
                                                            ++ (text
                                                            "           (I prompt for creds in a reply and delete the reply immediately).\n"
                                                            ++ (text
                                                            "           Multiple users can /login; ttbot picks healthy stored credentials per call.\n"
                                                            ++ (text
                                                            "  /logout — remove your stored creds. Two-step confirm.\n"
                                                            ++ (text
                                                            "  /whoami — show whether you're logged in, the health of your creds, and\n"
                                                            ++ (text
                                                            "            how long until I auto-log-out if S21 stays unhappy.\n"
                                                            ++ (text "\n"
                                                            ++ (text
                                                            "Any topic of a registered group:\n"
                                                            ++ (text
                                                            "  /bot_register_group — link this group to ttbot\n"
                                                            ++ (text
                                                            "  /set_matches_topic — call inside the topic you want to use as the matches topic\n"
                                                            ++ (text
                                                            "  /set_stats_topic — call inside the topic you want to use as the stats topic\n"
                                                            ++ (text
                                                            "  /refresh_usernames — refresh the participants cache against Telegram")))))))))))))))))))))))))

-- handleStart
unfoldable pub handle_start : Env → Message → Act GoError
handle_start env m = reply env m help
