-- ===== src/Perms/Roles.antt =====
-- internal/perms/roles.go: the names of the roles for actions, and the set of built-in roles.
use solve.Prelude.{String, Bool, List, [], ◌∷◌}
use solve.Perms.Set.{contains}

abbrev pub login_role : String
login_role = "login"

abbrev pub logout_role : String
logout_role = "logout"

abbrev pub register_role : String
register_role = "register"

abbrev pub status_role : String
status_role = "status"

abbrev pub observe_settings_role : String
observe_settings_role = "observe_settings"

abbrev pub create_setting_role : String
create_setting_role = "create_setting"

abbrev pub update_setting_role : String
update_setting_role = "update_setting"

abbrev pub delete_setting_role : String
delete_setting_role = "delete_setting"

abbrev pub observe_roles_role : String
observe_roles_role = "observe_roles"

abbrev pub create_role_role : String
create_role_role = "create_role"

abbrev pub delete_role_role : String
delete_role_role = "delete_role"

abbrev pub observe_role_roles_role : String
observe_role_roles_role = "observe_role_roles"

abbrev pub create_role_role_role : String
create_role_role_role = "create_role_role"

abbrev pub delete_role_role_role : String
delete_role_role_role = "delete_role_role"

abbrev pub observe_user_roles_role : String
observe_user_roles_role = "observe_user_roles"

abbrev pub create_user_role_role : String
create_user_role_role = "create_user_role"

abbrev pub delete_user_role_role : String
delete_user_role_role = "delete_user_role"

abbrev pub observe_user_role : String
observe_user_role = "observe_user"

abbrev pub update_user_role : String
update_user_role = "update_user"

abbrev pub observe_user_email_role : String
observe_user_email_role = "observe_user_email"

abbrev pub observe_user_first_name_role : String
observe_user_first_name_role = "observe_user_first_name"

abbrev pub observe_user_last_name_role : String
observe_user_last_name_role = "observe_user_last_name"

abbrev pub observe_user_middle_name_role : String
observe_user_middle_name_role = "observe_user_middle_name"

abbrev pub observe_user_status_role : String
observe_user_status_role = "observe_user_status"

abbrev pub observe_user_sessions_role : String
observe_user_sessions_role = "observe_user_sessions"

abbrev pub update_user_password_role : String
update_user_password_role = "update_user_password"

abbrev pub update_user_email_role : String
update_user_email_role = "update_user_email"

abbrev pub update_user_first_name_role : String
update_user_first_name_role = "update_user_first_name"

abbrev pub update_user_last_name_role : String
update_user_last_name_role = "update_user_last_name"

abbrev pub update_user_middle_name_role : String
update_user_middle_name_role = "update_user_middle_name"

abbrev pub update_user_status_role : String
update_user_status_role = "update_user_status"

abbrev pub reset_password_role : String
reset_password_role = "reset_password"

abbrev pub observe_session_role : String
observe_session_role = "observe_session"

abbrev pub delete_session_role : String
delete_session_role = "delete_session"

abbrev pub observe_problems_role : String
observe_problems_role = "observe_problems"

abbrev pub observe_problem_role : String
observe_problem_role = "observe_problem"

abbrev pub create_problem_role : String
create_problem_role = "create_problem"

abbrev pub update_problem_role : String
update_problem_role = "update_problem"

abbrev pub update_problem_owner_role : String
update_problem_owner_role = "update_problem_owner"

abbrev pub delete_problem_role : String
delete_problem_role = "delete_problem"

abbrev pub observe_compilers_role : String
observe_compilers_role = "observe_compilers"

abbrev pub observe_compiler_role : String
observe_compiler_role = "observe_compiler"

abbrev pub create_compiler_role : String
create_compiler_role = "create_compiler"

abbrev pub update_compiler_role : String
update_compiler_role = "update_compiler"

abbrev pub delete_compiler_role : String
delete_compiler_role = "delete_compiler"

abbrev pub observe_solutions_role : String
observe_solutions_role = "observe_solutions"

abbrev pub observe_solution_role : String
observe_solution_role = "observe_solution"

abbrev pub observe_solution_report_test_number : String
observe_solution_report_test_number = "observe_solution_report_test_number"

abbrev pub observe_solution_report_checker_logs : String
observe_solution_report_checker_logs = "observe_solution_report_checker_logs"

abbrev pub observe_solution_report_compile_log : String
observe_solution_report_compile_log = "observe_solution_report_compile_log"

abbrev pub observe_contests_role : String
observe_contests_role = "observe_contests"

abbrev pub observe_contest_role : String
observe_contest_role = "observe_contest"

abbrev pub observe_contest_problems_role : String
observe_contest_problems_role = "observe_contest_problems"

abbrev pub observe_contest_problem_role : String
observe_contest_problem_role = "observe_contest_problem"

abbrev pub create_contest_problem_role : String
create_contest_problem_role = "create_contest_problem"

abbrev pub update_contest_problem_role : String
update_contest_problem_role = "update_contest_problem"

abbrev pub delete_contest_problem_role : String
delete_contest_problem_role = "delete_contest_problem"

abbrev pub observe_contest_participants_role : String
observe_contest_participants_role = "observe_contest_participants"

abbrev pub observe_contest_participant_role : String
observe_contest_participant_role = "observe_contest_participant"

abbrev pub create_contest_participant_role : String
create_contest_participant_role = "create_contest_participant"

abbrev pub delete_contest_participant_role : String
delete_contest_participant_role = "delete_contest_participant"

abbrev pub observe_contest_solutions_role : String
observe_contest_solutions_role = "observe_contest_solutions"

abbrev pub observe_contest_solution_role : String
observe_contest_solution_role = "observe_contest_solution"

abbrev pub create_contest_solution_role : String
create_contest_solution_role = "create_contest_solution"

abbrev pub submit_contest_solution_role : String
submit_contest_solution_role = "submit_contest_solution"

abbrev pub update_contest_solution_role : String
update_contest_solution_role = "update_contest_solution"

abbrev pub delete_contest_solution_role : String
delete_contest_solution_role = "delete_contest_solution"

abbrev pub observe_contest_standings_role : String
observe_contest_standings_role = "observe_contest_standings"

abbrev pub observe_contest_full_standings_role : String
observe_contest_full_standings_role = "observe_contest_full_standings"

abbrev pub observe_contest_messages_role : String
observe_contest_messages_role = "observe_contest_messages"

abbrev pub observe_contest_message_role : String
observe_contest_message_role = "observe_contest_message"

abbrev pub create_contest_message_role : String
create_contest_message_role = "create_contest_message"

abbrev pub update_contest_message_role : String
update_contest_message_role = "update_contest_message"

abbrev pub delete_contest_message_role : String
delete_contest_message_role = "delete_contest_message"

abbrev pub submit_contest_question_role : String
submit_contest_question_role = "submit_contest_question"

abbrev pub create_contest_role : String
create_contest_role = "create_contest"

abbrev pub update_contest_role : String
update_contest_role = "update_contest"

abbrev pub update_contest_owner_role : String
update_contest_owner_role = "update_contest_owner"

abbrev pub delete_contest_role : String
delete_contest_role = "delete_contest"

abbrev pub register_contests_role : String
register_contests_role = "register_contests"

abbrev pub register_contest_role : String
register_contest_role = "register_contest"

abbrev pub register_contest_virtual_role : String
register_contest_virtual_role = "register_contest_virtual"

abbrev pub deregister_contest_role : String
deregister_contest_role = "deregister_contest"

abbrev pub observe_file_content_role : String
observe_file_content_role = "observe_file_content"

abbrev pub observe_scopes_role : String
observe_scopes_role = "observe_scopes"

abbrev pub observe_scope_role : String
observe_scope_role = "observe_scope"

abbrev pub create_scope_role : String
create_scope_role = "create_scope"

abbrev pub update_scope_role : String
update_scope_role = "update_scope"

abbrev pub update_scope_owner_role : String
update_scope_owner_role = "update_scope_owner"

abbrev pub delete_scope_role : String
delete_scope_role = "delete_scope"

abbrev pub observe_scope_user_role : String
observe_scope_user_role = "observe_scope_user"

abbrev pub create_scope_user_role : String
create_scope_user_role = "create_scope_user"

abbrev pub update_scope_user_role : String
update_scope_user_role = "update_scope_user"

abbrev pub delete_scope_user_role : String
delete_scope_user_role = "delete_scope_user"

abbrev pub consume_token_role : String
consume_token_role = "consume_token"

abbrev pub observe_accounts_role : String
observe_accounts_role = "observe_accounts"

abbrev pub observe_groups_role : String
observe_groups_role = "observe_groups"

abbrev pub observe_group_role : String
observe_group_role = "observe_group"

abbrev pub create_group_role : String
create_group_role = "create_group"

abbrev pub update_group_role : String
update_group_role = "update_group"

abbrev pub update_group_owner_role : String
update_group_owner_role = "update_group_owner"

abbrev pub delete_group_role : String
delete_group_role = "delete_group"

abbrev pub observe_group_members_role : String
observe_group_members_role = "observe_group_members"

abbrev pub create_group_member_role : String
create_group_member_role = "create_group_member"

abbrev pub update_group_member_role : String
update_group_member_role = "update_group_member"

abbrev pub delete_group_member_role : String
delete_group_member_role = "delete_group_member"

abbrev pub observe_posts_role : String
observe_posts_role = "observe_posts"

abbrev pub observe_post_role : String
observe_post_role = "observe_post"

abbrev pub create_post_role : String
create_post_role = "create_post"

abbrev pub update_post_role : String
update_post_role = "update_post"

abbrev pub update_post_owner_role : String
update_post_owner_role = "update_post_owner"

abbrev pub delete_post_role : String
delete_post_role = "delete_post"

unfoldable pub built_in_roles : List String
built_in_roles =
    login_role ∷ logout_role ∷ register_role ∷ status_role ∷ observe_settings_role
    ∷ create_setting_role ∷ update_setting_role ∷ delete_setting_role ∷ observe_roles_role
    ∷ create_role_role ∷ delete_role_role ∷ observe_role_roles_role ∷ create_role_role_role
    ∷ delete_role_role_role ∷ observe_user_roles_role ∷ create_user_role_role
    ∷ delete_user_role_role ∷ observe_user_role ∷ update_user_role ∷ observe_user_email_role
    ∷ observe_user_first_name_role ∷ observe_user_last_name_role ∷ observe_user_middle_name_role
    ∷ observe_user_status_role ∷ observe_user_sessions_role ∷ update_user_password_role
    ∷ update_user_email_role ∷ update_user_first_name_role ∷ update_user_last_name_role
    ∷ update_user_middle_name_role ∷ update_user_status_role ∷ reset_password_role
    ∷ observe_session_role ∷ observe_problems_role ∷ observe_problem_role ∷ create_problem_role
    ∷ update_problem_role ∷ update_problem_owner_role ∷ delete_problem_role ∷ observe_compilers_role
    ∷ observe_compiler_role ∷ create_compiler_role ∷ update_compiler_role ∷ delete_compiler_role
    ∷ observe_solutions_role ∷ observe_solution_role ∷ observe_solution_report_test_number
    ∷ observe_solution_report_checker_logs ∷ observe_solution_report_compile_log
    ∷ observe_contest_role ∷ observe_contest_problems_role ∷ observe_contest_problem_role
    ∷ create_contest_problem_role ∷ update_contest_problem_role ∷ delete_contest_problem_role
    ∷ observe_contest_participants_role ∷ observe_contest_participant_role
    ∷ create_contest_participant_role ∷ delete_contest_participant_role
    ∷ observe_contest_solutions_role ∷ observe_contest_solution_role ∷ create_contest_solution_role
    ∷ submit_contest_solution_role ∷ update_contest_solution_role ∷ delete_contest_solution_role
    ∷ observe_contest_standings_role ∷ observe_contest_full_standings_role
    ∷ observe_contest_messages_role ∷ observe_contest_message_role ∷ create_contest_message_role
    ∷ update_contest_message_role ∷ delete_contest_message_role ∷ submit_contest_question_role
    ∷ observe_contests_role ∷ create_contest_role ∷ update_contest_role ∷ update_contest_owner_role
    ∷ delete_contest_role ∷ delete_session_role ∷ register_contests_role ∷ register_contest_role
    ∷ register_contest_virtual_role ∷ deregister_contest_role ∷ observe_file_content_role
    ∷ observe_scopes_role ∷ observe_scope_role ∷ create_scope_role ∷ update_scope_role
    ∷ update_scope_owner_role ∷ delete_scope_role ∷ observe_scope_user_role ∷ create_scope_user_role
    ∷ update_scope_user_role ∷ delete_scope_user_role ∷ consume_token_role ∷ observe_accounts_role
    ∷ observe_groups_role ∷ observe_group_role ∷ create_group_role ∷ update_group_role
    ∷ update_group_owner_role ∷ delete_group_role ∷ observe_group_members_role
    ∷ create_group_member_role ∷ update_group_member_role ∷ delete_group_member_role
    ∷ observe_posts_role ∷ observe_post_role ∷ create_post_role ∷ update_post_role
    ∷ update_post_owner_role ∷ delete_post_role ∷ []

-- `IsBuiltInRole`
unfoldable pub is_built_in_role : String → Bool
unfolding built_in_roles contains
is_built_in_role name = contains built_in_roles name
