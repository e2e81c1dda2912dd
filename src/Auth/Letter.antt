-- ===== src/Auth/Letter.antt =====
-- internal/auth/mailer.go: the mail with a code.
use Prim.Native.String.{◌++◌}
use anime_companion_ai.Prelude.{String, Option, none, some, List, [], ◌∷◌, str_eq, if◌then◌else◌}

unfoldable pub public_site_url : String
public_site_url = "https://animecompanion.icu"

-- `verificationEmail`
pub record VerificationEmail : Type 0 where
  pub subject : String
  pub title : String
  pub intro : String

-- `emailForPurpose`
unfoldable pub email_for_purpose : String → VerificationEmail
email_for_purpose purpose =
    if str_eq purpose "reset"
    then record {
      subject = "SOS 团密码重置验证码";
      title = "重置你的账号密码";
      intro = "我们收到了你的密码重置请求。请使用下面的验证码继续操作。";
    }
    else record {
      subject = "SOS 团注册验证码";
      title = "确认你的 SOS 团账号";
      intro = "欢迎加入 SOS 团。请使用下面的验证码完成邮箱验证。";
    }

abbrev pub concat : List String → String
concat [] = ""
concat (s ∷ l) = s ++ concat l

-- What net/mail makes of an address: how it is written in a header, and the bare address.
pub record MailAddress : Type 0 where
  pub written : String
  pub address : String

pub record Part : Type 0 where
  pub content_type : String
  pub transfer_encoding : String
  pub body : String

-- The libraries for mail: `multipart` writes parts with a boundary, and `none` is an error.
pub record Mime : Type 0 where
  pub parse_address : String → Option MailAddress
  pub escape : String → String
  pub q_encode : String → String
  pub multipart : String → List Part → Option String
  pub quoted : String → String

pub record Envelope : Type 0 where
  pub message : String
  pub sender : String
  pub recipient : String

module _ (mime : Mime) where
  open mime use {parse_address, escape, q_encode, multipart, quoted}

  unfoldable pub plain_body : String → String → String → String
  unfolding public_site_url
  plain_body title intro code = concat (
      "SOS 团\r\n\r\n" ∷ title ∷ "\r\n\r\n" ∷ intro ∷ "\r\n\r\n验证码：" ∷ code
      ∷ "\r\n有效期：10 分钟\r\n\r\n访问：" ∷ public_site_url ∷ "\r\n\r\n若非本人操作，请忽略此邮件，你的账号不会受到影响。\r\n" ∷ [])

  unfoldable pub html_body : String → String → String → String
  unfolding public_site_url
  html_body title intro code = concat (
      "<!doctype html>\n"
      ∷ "<html lang=\"zh-CN\">\n"
      ∷ "<body style=\"margin:0;background:#f5f1e8;color:#302b2a;font-family:-apple-system,BlinkMacSystemFont,'Segoe UI','Microsoft YaHei',sans-serif\">\n"
      ∷ "  <div style=\"max-width:560px;margin:0 auto;padding:32px 16px\">\n"
      ∷ "    <div style=\"background:#ffffff;border:1px solid #e4ddd2;border-radius:16px;overflow:hidden\">\n"
      ∷ "      <div style=\"background:#b5262d;color:#ffffff;padding:20px 28px;font-size:20px;font-weight:700;letter-spacing:1px\">SOS 团</div>\n"
      ∷ "      <div style=\"padding:28px\">\n"
      ∷ "        <h1 style=\"margin:0 0 14px;font-size:24px;line-height:1.35\">"
      ∷ (escape title)
      ∷ "</h1>\n"
      ∷ "        <p style=\"margin:0 0 22px;line-height:1.7;color:#5f5752\">"
      ∷ (escape intro)
      ∷ "</p>\n"
      ∷ "        <div style=\"margin:0 0 12px;padding:18px;text-align:center;background:#fff7e8;border:1px solid #edcf9b;border-radius:12px;font-size:32px;font-weight:800;letter-spacing:8px;color:#9e2027\">"
      ∷ (escape code)
      ∷ "</div>\n"
      ∷ "        <p style=\"margin:0 0 24px;text-align:center;color:#6d625d\">验证码将在 <strong>10 分钟</strong>后失效</p>\n"
      ∷ "        <p style=\"margin:0 0 10px;line-height:1.6\"><a href=\""
      ∷ public_site_url
      ∷ "\" style=\"color:#9e2027\">访问 Anime Companion AI</a></p>\n"
      ∷ "        <p style=\"margin:0;font-size:13px;line-height:1.6;color:#81756e\">若非本人操作，请忽略此邮件，你的账号不会受到影响。</p>\n"
      ∷ "      </div>\n"
      ∷ "    </div>\n"
      ∷ "  </div>\n"
      ∷ "</body>\n"
      ∷ "</html>"
      ∷ [])

  -- The headers and the body. `date` is the time as RFC 1123 writes it.
  unfoldable pub message_of :
      MailAddress → MailAddress → VerificationEmail → String → String → String → String
  message_of sender recipient template boundary date body = concat (
      "From: "
      ∷ sender.written
      ∷ "\r\nTo: "
      ∷ recipient.written
      ∷ "\r\nSubject: "
      ∷ q_encode template.subject
      ∷ "\r\nDate: "
      ∷ date
      ∷ "\r\nMIME-Version: 1.0\r\nContent-Type: multipart/alternative; boundary="
      ∷ quoted boundary
      ∷ "\r\n\r\n"
      ∷ body
      ∷ [])

  abbrev utf8_part : String → String → Part
  utf8_part content_type body = record {
    content_type = content_type;
    transfer_encoding = "8bit";
    body = body;
  }

  unfoldable pub parts_of : VerificationEmail → String → List Part
  unfolding plain_body html_body
  parts_of template code =
      utf8_part "text/plain; charset=UTF-8" (plain_body template.title template.intro code)
      ∷ utf8_part "text/html; charset=UTF-8" (html_body template.title template.intro code)
      ∷ []

  unfoldable pub enveloped :
      MailAddress
      → MailAddress
      → VerificationEmail
      → String
      → String
      → Option String
      → Option Envelope
  unfolding message_of
  enveloped sender recipient template boundary date none = none
  enveloped sender recipient template boundary date (some body) = some (record {
    message = message_of sender recipient template boundary date body;
    sender = sender.address;
    recipient = recipient.address;
  })

  unfoldable pub composed :
      Option MailAddress
      → Option MailAddress
      → VerificationEmail
      → String
      → String
      → String
      → Option Envelope
  unfolding enveloped parts_of
  composed none recipient template code boundary date = none
  composed (some sender) none template code boundary date = none
  composed (some sender) (some recipient) template code boundary date =
      enveloped sender recipient template boundary date
        (multipart boundary (parts_of template code))

  -- `composeVerificationMessage`; `boundary` is what the multipart writer draws.
  unfoldable pub compose_verification_message :
      String → String → String → String → String → String → Option Envelope
  unfolding composed email_for_purpose
  compose_verification_message from to code purpose boundary date =
      composed (parse_address from) (parse_address to) (email_for_purpose purpose) code boundary
        date
