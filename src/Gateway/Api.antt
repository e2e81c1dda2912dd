-- ===== src/Gateway/Api.antt =====
-- internal/gateway/api_handler.go: the routes of the interface for conversations, and the handlers that
-- list and delete messages, chat without an account and report the state of the agent.
pub mod Guarded
pub mod Tests
use anime_companion_ai.Prelude.{
  String, Bool, true, false, not, ◌||◌, Option, none, some, List, if◌then◌else◌, Result, ok, err,
}
use anime_companion_ai.Prelude.Text.{is_empty}
use anime_companion_ai.Conversation.{is_supported_channel, default_conversation_id}
use anime_companion_ai.Quota.Types.{Subject}
use anime_companion_ai.Gateway.AgentClient.{ConversationMessage, ConversationSpace}
use anime_companion_ai.Gateway.Messages.{
  AgentCode, Response, api_error, agent_error, Services, Request, web_send_conversation_message,
  web_send_message,
}

-- The routes of `registerAuth`, in their order.
pub data AccountRoute : Type 0 where
  captcha register_start register_resend register_verify login password_forgot : AccountRoute
  password_reset session logout : AccountRoute

-- Whether `requireUser` stands before the handler.
unfoldable pub needs_user : AccountRoute → Bool
needs_user session = true
needs_user logout = true
needs_user _ = false

-- Which handlers the gateway was given: none for accounts, a function that finds the user of a session,
-- or the service for accounts.
pub data Mode : Type 0 where
  no_accounts sessions_only full_accounts : Mode

-- What the other handlers ask of the agent, by channel and owner, and the limiter by an owner's id.
-- `account` are the handlers of auth_handler.go with what comes in the request, and `check` is the error of a health check, if there is one.
pub record Caller (services : Services) : Type 0 where
  pub allow_owner : String → services.State → Bool × services.State
  pub list_spaces :
      String → String → services.State → Result AgentCode (List ConversationSpace) × services.State
  pub list_conversation :
      String
      → String
      → String
      → services.State
      → Result AgentCode (List ConversationMessage) × services.State
  pub delete_conversation :
      String → String → String → services.State → Option AgentCode × services.State
  pub reply : String → String → String → services.State → Result AgentCode String × services.State
  pub list_legacy :
      String
      → String
      → services.State
      → Result AgentCode (List ConversationMessage) × services.State
  pub delete_legacy : String → String → services.State → Option AgentCode × services.State
  pub check : services.State → Option String
  pub account : AccountRoute → services.State → Response × services.State

-- `chatReq`
pub record ChatRequest : Type 0 where
  pub channel : String
  pub external_id : String
  pub text : String

-- A response, and whether it tells that the route is deprecated.
pub data ApiResponse : Type 0 where
  answered : Response → ApiResponse
  conversations : List ConversationSpace → ApiResponse
  messages : List ConversationMessage → ApiResponse
  said : String → ApiResponse
  no_content healthy no_route : ApiResponse
  unavailable : String → ApiResponse
  deprecated : ApiResponse → ApiResponse

-- The routes with their parameters and bodies; a body that cannot be read is `none`. The handlers that
-- send take the message, whether it could be read, and the id that is drawn for a request without one.
pub data Route : Type 0 where
  chat : Option ChatRequest → Route
  list_of delete_of : String → String → Route
  spaces : Route
  conversation_list conversation_delete : String → Route
  conversation_send : Bool → String → String → String → Route
  alias_list alias_delete : Route
  alias_send : Bool → String → String → String → Route
  healthz : Route
  account_route : AccountRoute → Route

abbrev pub account_of : Route → Option AccountRoute
account_of (account_route route) = some route
account_of _ = none

abbrev pub refused : AgentCode → ApiResponse
refused code = answered (agent_error code)

abbrev pub spaces_or_error : Result AgentCode (List ConversationSpace) → ApiResponse
spaces_or_error (ok found) = conversations found
spaces_or_error (err code) = refused code

abbrev pub messages_or_error : Result AgentCode (List ConversationMessage) → ApiResponse
messages_or_error (ok found) = messages found
messages_or_error (err code) = refused code

abbrev pub deleted_or_error : Option AgentCode → ApiResponse
deleted_or_error none = no_content
deleted_or_error (some code) = refused code

abbrev pub said_or_error : Result AgentCode String → ApiResponse
said_or_error (ok text) = said text
said_or_error (err code) = refused code

-- `allowedAPIChannel`
abbrev pub allowed_api_channel : String → Bool
unfolding is_supported_channel
allowed_api_channel channel = is_supported_channel channel

-- `conversationParams`: whether the parameters of the path are taken.
unfoldable pub conversation_params : String → String → Bool
unfolding is_empty allowed_api_channel
conversation_params channel external_id =
    if is_empty channel || is_empty external_id || not (allowed_api_channel channel)
    then false
    else true

abbrev pub bad_request : ApiResponse
bad_request = answered (api_error 400 "invalid_request")

module _ (services : Services) (caller : Caller services) (is_uuid : String → Bool) where
  open services use {State}
  open caller use {
    allow_owner, list_spaces, list_conversation, delete_conversation, reply, list_legacy,
    delete_legacy, check, account,
  }

  -- `webListConversationSpaces`
  unfoldable pub web_list_conversation_spaces : Subject → State → ApiResponse × State
  web_list_conversation_spaces user s =
      let (found, s') = list_spaces "api" user.user_id s in (spaces_or_error found, s')

  -- `webListConversationMessages`
  unfoldable pub web_list_conversation_messages : Subject → String → State → ApiResponse × State
  web_list_conversation_messages user conversation_id s =
      let (found, s') = list_conversation "api" user.user_id conversation_id s in
      (messages_or_error found, s')

  -- `webDeleteConversationMessages`
  unfoldable pub web_delete_conversation_messages : Subject → String → State → ApiResponse × State
  web_delete_conversation_messages user conversation_id s =
      let (done, s') = delete_conversation "api" user.user_id conversation_id s in
      (deleted_or_error done, s')

  -- `markDeprecatedConversationAlias`
  abbrev pub mark_deprecated : ApiResponse × State → ApiResponse × State
  mark_deprecated (response, s) = (deprecated response, s)

  -- `webListMessages` and `webDeleteMessages`
  unfoldable pub web_list_messages : Subject → State → ApiResponse × State
  web_list_messages user s =
      let (found, s') = list_conversation "api" user.user_id default_conversation_id s in
      mark_deprecated (messages_or_error found, s')

  unfoldable pub web_delete_messages : Subject → State → ApiResponse × State
  web_delete_messages user s =
      let (done, s') = delete_conversation "api" user.user_id default_conversation_id s in
      mark_deprecated (deleted_or_error done, s')

  abbrev as_answer : Response × State → ApiResponse × State
  as_answer (response, s) = (answered response, s)

  -- `apiChat`
  unfoldable pub api_chat : Option ChatRequest → State → ApiResponse × State
  unfolding is_empty allowed_api_channel
  api_chat none s = (bad_request, s)
  api_chat (some request) s =
      let (allowed, s₁) = allow_owner request.external_id s in
      let (answer, s₂) = reply request.channel request.external_id request.text s₁ in
      if is_empty request.channel || is_empty request.external_id || is_empty request.text
      then (bad_request, s)
      else if not (allowed_api_channel request.channel)
      then (bad_request, s)
      else if allowed
      then (said_or_error answer, s₂)
      else (answered (api_error 429 "rate_limited"), s₁)

  -- `apiListMessages`
  unfoldable pub api_list_messages : String → String → State → ApiResponse × State
  unfolding conversation_params
  api_list_messages channel external_id s =
      let (found, s') = list_legacy channel external_id s in
      if conversation_params channel external_id
      then (messages_or_error found, s')
      else (bad_request, s)

  -- `apiDeleteMessages`
  unfoldable pub api_delete_messages : String → String → State → ApiResponse × State
  unfolding conversation_params
  api_delete_messages channel external_id s =
      let (done, s') = delete_legacy channel external_id s in
      if conversation_params channel external_id
      then (deleted_or_error done, s')
      else (bad_request, s)

  -- `healthz`
  unfoldable pub health : State → ApiResponse × State
  health s = elim (check s) [ none ↦ (healthy, s) | some message ↦ (unavailable message, s) ]

  abbrev message_from : Subject → String → String → String → Request
  message_from user conversation_id content client_request_id = record {
    user = user;
    conversation_id = conversation_id;
    content = content;
    client_request_id = client_request_id;
  }

  -- The routes behind `requireUser`.
  unfoldable pub serve_user : Subject → Route → State → ApiResponse × State
  unfolding web_list_conversation_spaces web_list_conversation_messages
      web_delete_conversation_messages web_list_messages web_delete_messages health
  serve_user user spaces s = web_list_conversation_spaces user s
  serve_user user (conversation_list id) s = web_list_conversation_messages user id s
  serve_user user (conversation_send bound id content request_id) s = as_answer (
      web_send_conversation_message services is_uuid bound (message_from user id content request_id)
        s)
  serve_user user (conversation_delete id) s = web_delete_conversation_messages user id s
  serve_user user alias_list s = web_list_messages user s
  serve_user user (alias_send bound new_id content request_id) s = mark_deprecated (
      as_answer (
        web_send_message services is_uuid bound new_id
          (message_from user default_conversation_id content request_id) s))
  serve_user user alias_delete s = web_delete_messages user s
  serve_user user healthz s = health s
  serve_user user (chat body) s = (no_route, s)
  serve_user user (list_of channel external_id) s = (no_route, s)
  serve_user user (delete_of channel external_id) s = (no_route, s)
  serve_user user (account_route route) s = (no_route, s)

  -- Without a user only the state of the agent is told; other routes are refused or are not there.
  unfoldable pub serve_stranger : Response → Route → State → ApiResponse × State
  unfolding health
  serve_stranger refusal healthz s = health s
  serve_stranger refusal (chat body) s = (no_route, s)
  serve_stranger refusal (list_of channel external_id) s = (no_route, s)
  serve_stranger refusal (delete_of channel external_id) s = (no_route, s)
  serve_stranger refusal (account_route route) s = (no_route, s)
  serve_stranger refusal _ s = (answered refusal, s)

  -- Without accounts at all.
  unfoldable pub serve_legacy : Route → State → ApiResponse × State
  unfolding api_chat api_list_messages api_delete_messages health
  serve_legacy (chat body) s = api_chat body s
  serve_legacy (list_of channel external_id) s = api_list_messages channel external_id s
  serve_legacy (delete_of channel external_id) s = api_delete_messages channel external_id s
  serve_legacy healthz s = health s
  serve_legacy _ s = (no_route, s)

  -- `registerAuth`: most routes ask for no user.
  unfoldable pub serve_account :
      Result Response Subject → AccountRoute → State → ApiResponse × State
  unfolding needs_user
  serve_account (ok user) route s = as_answer (account route s)
  serve_account (err refusal) route s =
      let answer = as_answer (account route s) in
      if needs_user route then (answered refusal, s) else answer

  -- The routes that are not of `registerAuth`, where there are sessions.
  unfoldable pub serve_web : Result Response Subject → Route → State → ApiResponse × State
  unfolding serve_user serve_stranger
  serve_web (ok user) route s = serve_user user route s
  serve_web (err refusal) route s = serve_stranger refusal route s

  -- `registerAPI`: a request by its route; `user` is what `requireUser` finds.
  unfoldable pub serve : Mode → Result Response Subject → Route → State → ApiResponse × State
  unfolding serve_web serve_account serve_legacy
  serve no_accounts user route s = serve_legacy route s
  serve sessions_only user route s = serve_web user route s
  serve full_accounts user route s = elim (account_of route) [
    | some found ↦ serve_account user found s
    | none ↦ serve_web user route s
  ]
